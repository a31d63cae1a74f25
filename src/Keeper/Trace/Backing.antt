-- ===== src/Keeper/Trace/Backing.antt =====
-- The counter against the bank's supply of the denom.
use stable_coin.Prelude.{◌≡◌, refl, sym, ap, ◌∙◌, none, [], ◌∷◌, Bytes, bytes_eq_iff}
use mathlib.Core.Path.{subst}
use stable_coin.Prelude.Int.{ℤ, ◌+ℤ◌, ◌-ℤ◌, int_laws}
use stable_coin.Go.Outcome.{ok_inj, ok}
use stable_coin.Sdk.{Sdk, amount_of, MathLaws, CoinLaws, BankLaws, StoreLaws, SetLaws}
use stable_coin.Types.Params.{Params, ParamsCodec, CodecLaws}
use stable_coin.Types.Messages.{MsgMint, MsgBurn}
use stable_coin.Keeper.State.{World, Keeper, get_params, get_total_supply}
use stable_coin.Keeper.State.Supply.{get_params-store, get_total_supply-store}
use stable_coin.Keeper.Server.Mint.{MintDone, mint-MintDone}
use stable_coin.Keeper.Server.Burn.{BurnDone, burn-BurnDone}
use stable_coin.Keeper.Update.Effect.{update_params-ok}
use stable_coin.Keeper.Trace.{Step, minted, burned, updated, other, Reach, here, next}

-- The bank's supply of the denom `d` is the counter and `base` more, and `d` is the stored denom.
pub record IsBacked (k : Sdk) (c : ParamsCodec) (d : Bytes) (base : ℤ) (w : World k) : Type 0 where
  pub total : ℤ
  pub counter : get_total_supply k w ≡ ok total
  pub backed : k.supply_of d w.bank ≡ total +ℤ base
  pub denom : (p : Params) → get_params k c w ≡ ok (p, none) → p.denom ≡ d

amount_of-one :
    (d e : Bytes) (a : ℤ) → e ≡ d → amount_of d (record { denom = e; amount = a } ∷ []) ≡ a
amount_of-one d e a h = rw (h, (bytes_eq_iff d d).1 refl) (omega int_laws)

module _ (k : Sdk) (c : ParamsCodec) (d : Bytes) (base : ℤ) {w w' : World k}
    (v : IsBacked k c d base w) where
  mint-IsBacked : (m : MsgMint) → MintDone k c m w w' → IsBacked k c d base w'
  mint-IsBacked m done =
      let g = done.granted in
      let e = ok_inj (sym g.counter ∙ v.counter) in
      let coins =
        ap (amount_of d) g.paid
        ∙ amount_of-one d g.params.denom done.plan.amount (v.denom g.params g.stored) in
      record {
        total = done.plan.current_supply +ℤ done.plan.amount;
        counter = done.counted;
        backed = grind (int_laws, e, coins, done.minted d, v.backed);
        denom = λ p h. v.denom p (sym done.same_params ∙ h);
      }

  burn-IsBacked : (m : MsgBurn) → BurnDone k c m w w' → IsBacked k c d base w'
  burn-IsBacked m done =
      let g = done.granted in
      let e = ok_inj (sym done.counter ∙ v.counter) in
      let coins =
        ap (amount_of d) g.paid
        ∙ amount_of-one d g.params.denom done.plan.amount (v.denom g.params g.stored) in
      record {
        total = done.current -ℤ done.plan.amount;
        counter = done.counted;
        backed = grind (int_laws, e, coins, done.burned d, v.backed);
        denom = λ p h. v.denom p (sym done.same_params ∙ h);
      }

module _ (k : Sdk) (keeper : Keeper) (c : ParamsCodec) (math : MathLaws k) (coin : CoinLaws k)
    (bank : BankLaws k) (stores : StoreLaws k) (sets : SetLaws k) (codec : CodecLaws c) (d : Bytes)
    (base : ℤ) where
  Step-IsBacked :
      {w w' : World k}
      → Step k keeper c (λ p. p.denom ≡ d) (λ b b'. k.supply_of d b' ≡ k.supply_of d b) w w'
      → IsBacked k c d base w
      → IsBacked k c d base w'
  Step-IsBacked (minted {w} {w'} m e) v =
      mint-IsBacked k c d base v m (mint-MintDone k c math coin bank stores sets m w w' e)
  Step-IsBacked (burned {w} {w'} m e) v =
      burn-IsBacked k c d base v m (burn-BurnDone k c math coin bank stores sets m w w' e)
  Step-IsBacked (updated {w} {w'} r e same) v =
      let (_, _, read, counter, same_bank) =
        update_params-ok k keeper math r c stores codec w w' e in
      record {
        total = v.total;
        counter = counter ∙ v.counter;
        backed = ap (k.supply_of d) same_bank ∙ v.backed;
        denom = λ p h. subst (λ q. q.denom ≡ d) (ap (λ x. x.0) (ok_inj (sym read ∙ h))) same;
      }
  Step-IsBacked (other {w} {w'} s e) v = record {
    total = v.total;
    counter = get_total_supply-store k w' w s ∙ v.counter;
    backed = e ∙ v.backed;
    denom = λ p h. v.denom p (sym (get_params-store k c w' w s) ∙ h);
  }

  -- While the denom stays `d`, and nothing but this module mints or burns it, the bank's supply of
  -- `d` and the counter keep their distance: every minted coin is counted, and every burned one.
  -- The libraries keep their laws.
  pub Reach-IsBacked :
      {w w' : World k}
      → Reach k keeper c (λ p. p.denom ≡ d) (λ b b'. k.supply_of d b' ≡ k.supply_of d b) w w'
      → IsBacked k c d base w
      → IsBacked k c d base w'
  Reach-IsBacked here v = v
  Reach-IsBacked (next r s) v = Step-IsBacked s (Reach-IsBacked r v)
