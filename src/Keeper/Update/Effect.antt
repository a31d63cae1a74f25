-- ===== src/Keeper/Update/Effect.antt =====
-- What UpdateParams does, and to whom it answers.
use stable_coin.Prelude.{
  ◌≡◌, refl, ◌↔◌, Bytes, none, not, bytes_eq, bytes_eq→eq, bytes_eq_iff, arith,
}
use stable_coin.Go.Outcome.{Outcome, ok, err, panic, >>=-eq-ok, raise_if-eq-ok, reading-eq-ok}
use stable_coin.Sdk.{Sdk, MathLaws, StoreLaws}
use stable_coin.Types.Params.{ParamsCodec, CodecLaws}
use stable_coin.Types.Params.Valid.{IsValid, validate_iff}
use stable_coin.Types.Messages.{MsgUpdateParams}
use stable_coin.Keeper.State.{
  World, Keeper, get_authority, set_params, get_params, get_total_supply,
}
use stable_coin.Keeper.State.Supply.{get_params-set_params, get_total_supply-set_params}
use stable_coin.Keeper.Update.{as_invalid_authority, update_checks, update_params}

as_invalid_authority-eq-ok :
    (r : Outcome Bytes) {a : Bytes} → as_invalid_authority r ≡ ok a → r ≡ ok a
as_invalid_authority-eq-ok (ok a) h = h
as_invalid_authority-eq-ok (err e) h = cc
as_invalid_authority-eq-ok panic h = cc

module _ (k : Sdk) (keeper : Keeper) (math : MathLaws k) (req : MsgUpdateParams) where
  -- The checks of UpdateParams pass exactly for the keeper's authority, written as an address,
  -- with valid parameters. The libraries keep their laws.
  pub update_checks_iff :
      (update_checks k keeper req ≡ ok tt)
      ↔ ((k.string_to_bytes req.authority ≡ ok keeper.authority) × IsValid k req.params)
  unfolding update_checks get_authority
  update_checks_iff = (
    λ h.
        let (a, ea, h₁) = >>=-eq-ok (as_invalid_authority (k.string_to_bytes req.authority)) _ h in
        let (same, h₂) = raise_if-eq-ok (not (bytes_eq keeper.authority a)) _ _ h₁ in
        let eq = bytes_eq→eq keeper.authority a (ground arith) in
        (rw eq (as_invalid_authority-eq-ok _ ea), (validate_iff k math req.params).0 h₂),
    λ h.
        let same = (bytes_eq_iff keeper.authority keeper.authority).1 refl in
        rw (h.0, same) ((validate_iff k math req.params).1 h.1),
  )

  module _ (c : ParamsCodec) (stores : StoreLaws k) (codec : CodecLaws c) where
    -- A successful UpdateParams was sent by the authority with valid parameters. These are the
    -- parameters that are read from then on; the counter and the bank are as before.
    -- The libraries keep their laws.
    pub update_params-ok :
        (w w' : World k)
        → update_params k keeper c req w ≡ (ok tt, w')
        → (k.string_to_bytes req.authority ≡ ok keeper.authority)
          × IsValid k req.params
          × (get_params k c w' ≡ ok (req.params, none))
          × (get_total_supply k w' ≡ get_total_supply k w)
          × (w'.bank ≡ w.bank)
    unfolding update_params
    update_params-ok w w' h =
        let (_, checked, h₁) =
          reading-eq-ok (update_checks k keeper req) w (λ _. set_params k c req.params) h in
        let (sent, valid) = update_checks_iff.0 checked in
        let (counter, bank) = get_total_supply-set_params k stores c req.params w w' h₁ in
        (sent, valid, get_params-set_params k stores c codec req.params w w' h₁, counter, bank)
