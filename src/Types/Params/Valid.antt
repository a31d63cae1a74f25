-- ===== src/Types/Params/Valid.antt =====
-- Which parameters Params.Validate accepts.
use stable_coin.Prelude.{◌≡◌, refl, ◌↔◌, Bytes, some, false, true, arith}
use stable_coin.Prelude.Int.{ℤ, pos, ◌<ℤ◌}
use stable_coin.Go.Outcome.{
  Outcome, Done, ok, err, panic, >>=-eq-ok, raise_if-eq-ok, or_raise-eq-ok, or_raise, ◌>>◌,
}
use stable_coin.Go.Strings.{is_blank}
use stable_coin.Sdk.{Sdk, MathLaws}
use stable_coin.Types.Params.{Params, validate, as_invalid_issuer}

-- A denom and an issuer that are not blank, an issuer that is an address, and a positive limit.
pub record IsValid (k : Sdk) (p : Params) : Type 0 where
  pub denom_given : is_blank p.denom ≡ false
  pub issuer_given : is_blank p.issuer ≡ false
  pub issuer_address : Bytes
  pub issuer_parsed : k.acc_address_from_bech32 p.issuer ≡ ok issuer_address
  pub max_given : is_blank p.max_supply ≡ false
  pub max : ℤ
  pub max_parsed : k.new_int_from_string p.max_supply ≡ some max
  pub max_positive : pos 0 <ℤ max

as_invalid_issuer-eq-ok :
    (r : Outcome Bytes) (m : Outcome Done)
    → (as_invalid_issuer r >> m) ≡ ok tt
    → (a : Bytes) × (r ≡ ok a) × (m ≡ ok tt)
as_invalid_issuer-eq-ok (ok a) m h = (a, refl, h)
as_invalid_issuer-eq-ok (err e) m h = cc
as_invalid_issuer-eq-ok panic m h = cc

module _ (k : Sdk) (math : MathLaws k) (p : Params) where
  validate→IsValid : validate k p ≡ ok tt → IsValid k p
  unfolding validate
  validate→IsValid h =
      let (denom, h₁) = raise_if-eq-ok (is_blank p.denom) _ _ h in
      let (issuer, h₂) = raise_if-eq-ok (is_blank p.issuer) _ _ h₁ in
      let (a, ea, h₃) = as_invalid_issuer-eq-ok (k.acc_address_from_bech32 p.issuer) _ h₂ in
      let (given, h₄) = raise_if-eq-ok (is_blank p.max_supply) _ _ h₃ in
      let (max, em, h₅) = >>=-eq-ok (or_raise (k.new_int_from_string p.max_supply) _) _ h₄ in
      record {
        denom_given = denom;
        issuer_given = issuer;
        issuer_address = a;
        issuer_parsed = ea;
        max_given = given;
        max = max;
        max_parsed = or_raise-eq-ok _ _ em;
        max_positive = ground (arith, math.positive_lem max, h₅);
      }

  IsValid→validate : IsValid k p → validate k p ≡ ok tt
  unfolding validate
  IsValid→validate v =
      let positive : k.int_is_positive v.max ≡ true =
        ground (arith, math.positive_lem v.max, v.max_positive) in
      rw (v.denom_given, v.issuer_given, v.issuer_parsed, v.max_given, v.max_parsed, positive)

  -- Validate accepts exactly the parameters whose denom, issuer and limit are not blank, whose
  -- issuer is an address and whose limit is a positive integer.
  -- The libraries keep their laws.
  pub validate_iff : (validate k p ≡ ok tt) ↔ IsValid k p
  validate_iff = (validate→IsValid, IsValid→validate)
