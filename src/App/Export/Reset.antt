-- ===== src/App/Export/Reset.antt =====
-- The loop over the validators, on one address.
use stable_coin.Prelude.{
  ℕ, ltb, length, not, true, ◌&&◌, refl, ◌≡◌, sym, ap, ◌∙◌, Bytes, Bool, false, ◌||◌, List, [], ◌∷◌,
  Option, none, some, bytes_eq, bytes_eq→eq, if◌then◌else◌, arith, Bool-cases, inl, inr,
}
use stable_coin.Go.Outcome.{ok, or_panic, after-eq-ok, reading-eq-ok, or_panic-eq-ok, ok_inj}
use stable_coin.Go.Action.{fatal, for_each, fatal-eq-ok, or_die-eq-ok}
use stable_coin.App.Keepers.{Keepers, Validator}
use stable_coin.App.Export.{is_listed, reset_validator, reset_at_key}

-- The staking keeper files a validator under the address that its operator's text stands for: what
-- is set is read back under that address, and the others keep their values.
pub record StakingLaws (k : Keepers) : Type 0 where
  pub filed :
      (h : ℕ) (a : Bytes) (s : k.Store) (v : Validator)
      → k.get_validator h a s ≡ ok v
      → k.validator_bytes v.operator ≡ ok a
  pub get-set :
      (h : ℕ) (a : Bytes) (v : Validator) (s s' : k.Store)
      → k.set_validator h v s ≡ (ok tt, s')
      → k.validator_bytes v.operator ≡ ok a
      → k.get_validator h a s' ≡ ok v
  pub get-set_ne :
      (h : ℕ) (a b : Bytes) (v : Validator) (s s' : k.Store)
      → k.set_validator h v s ≡ (ok tt, s')
      → k.validator_bytes v.operator ≡ ok a
      → bytes_eq a b ≡ false
      → k.get_validator h b s' ≡ k.get_validator h b s

abbrev is_at : Option Bytes → Bytes → Bool
is_at none a = false
is_at (some b) a = bytes_eq b a

-- The address stands in one of the keys.
abbrev pub is_visited : Keepers → List Bytes → Bytes → Bool
is_visited k [] a = false
is_visited k (key ∷ keys) a = is_at (k.address_from_key key) a || is_visited k keys a

-- An allow list is given, and none of its texts is the validator's.
abbrev pub is_among : Bytes → List Bytes → Bool
is_among text [] = false
is_among text (a ∷ allowed) = bytes_eq text a || is_among text allowed

abbrev pub is_left_out : List Bytes → Bytes → Bool
is_left_out [] text = false
is_left_out (a ∷ allowed) text = not (is_among text (a ∷ allowed))

-- What becomes of a validator: it is unbonded from height 0, and jailed if it is left out.
abbrev pub restarted : List Bytes → Bytes → Validator → Validator
restarted allowed text v = record v {
  unbonding_height = 0;
  jailed = is_left_out allowed text || v.jailed;
}

is_listed-among :
    (text : Bytes) (allowed : List Bytes) → is_listed text allowed ≡ is_among text allowed
is_listed-among text [] = refl
is_listed-among text (a ∷ allowed) = ground (arith, is_listed-among text allowed)

left_out_lem :
    (allowed : List Bytes) (text : Bytes)
    → (ltb 0 (length allowed) && not (is_listed text allowed)) ≡ is_left_out allowed text
left_out_lem [] text = refl
left_out_lem (a ∷ allowed) text = ground (arith, is_listed-among text (a ∷ allowed))

reset_validator-restarted :
    (allowed : List Bytes) (text : Bytes) (v : Validator)
    → reset_validator allowed text v ≡ restarted allowed text v
unfolding reset_validator
reset_validator-restarted allowed text v =
    rw (left_out_lem allowed text) (go (is_left_out allowed text))
  where
    go :
        (out : Bool)
        → (if out
            then record v { unbonding_height = 0; jailed = true }
            else record v { unbonding_height = 0 })
          ≡ record v { unbonding_height = 0; jailed = out || v.jailed }
    go true = refl
    go false = refl

module _ (k : Keepers) (laws : StakingLaws k) (h : ℕ) (allowed : List Bytes) where
  reset_at_key-eq-ok :
      (key : Bytes) (s s' : k.Store)
      → reset_at_key k h allowed key s ≡ (ok tt, s')
      → (a : Bytes) × (v : Validator) × (text : Bytes) × (k.address_from_key key ≡ some a)
        × (k.get_validator h a s ≡ ok v)
        × (k.validator_text a ≡ ok text)
        × (k.set_validator h (reset_validator allowed text v) s ≡ (ok tt, s'))
  unfolding reset_at_key
  reset_at_key-eq-ok key s s' e =
      let (a, ea, e₁) = reading-eq-ok (or_panic (k.address_from_key key)) s _ e in
      let (v, ev, e₂) = reading-eq-ok (fatal (k.get_validator h a s)) s _ e₁ in
      let (text, et, e₃) = reading-eq-ok (fatal (k.validator_text a)) s _ e₂ in
      (
        a,
        v,
        text,
        or_panic-eq-ok _ ea,
        fatal-eq-ok _ ev,
        fatal-eq-ok _ et,
        or_die-eq-ok (k.set_validator h (reset_validator allowed text v) s) e₃,
      )

  operator-reset_validator :
      (text : Bytes) (v : Validator) → (reset_validator allowed text v).operator ≡ v.operator
  unfolding reset_validator
  operator-reset_validator text v = ground arith

  reset_validator-twice :
      (text : Bytes) (v : Validator)
      → reset_validator allowed text (reset_validator allowed text v)
        ≡ reset_validator allowed text v
  unfolding reset_validator
  reset_validator-twice text v = ground arith

  -- What the loop leaves under the address: the validator, reset if one of the keys is its.
  module _ (a text : Bytes) (named : k.validator_text a ≡ ok text) where
    one_key :
        (key : Bytes) (s s' : k.Store) (v : Validator)
        → k.get_validator h a s ≡ ok v
        → reset_at_key k h allowed key s ≡ (ok tt, s')
        → k.get_validator h a s'
          ≡ ok (if is_at (k.address_from_key key) a then reset_validator allowed text v else v)
    one_key key s s' v there e =
        let (b, w, text', eb, ew, et, set) = reset_at_key-eq-ok key s s' e in
        let operator : k.validator_bytes (reset_validator allowed text' w).operator ≡ ok b =
          ap k.validator_bytes (operator-reset_validator text' w) ∙ laws.filed h b s w ew in
        elim (Bool-cases (bytes_eq b a)) [
          | inl same ↦
              let eq : b ≡ a = bytes_eq→eq b a same in
              let value : w ≡ v = ok_inj (sym ew ∙ ap (λ x. k.get_validator h x s) eq ∙ there) in
              let texts : text' ≡ text = ok_inj (sym et ∙ ap k.validator_text eq ∙ named) in
              let got = laws.get-set h b (reset_validator allowed text' w) s s' set operator in
              rw (eb, same)
                (ap (λ x. k.get_validator h x s') (sym eq)
                  ∙ got
                  ∙ ap ok (
                      ap (λ x. reset_validator allowed x w) texts
                      ∙ ap (reset_validator allowed text) value))
          | inr other ↦ rw (eb, other) (laws.get-set_ne h b a _ s s' set operator other ∙ there)
        ]

    reset_loop :
        (keys : List Bytes) (s s' : k.Store) (v : Validator)
        → k.get_validator h a s ≡ ok v
        → for_each (reset_at_key k h allowed) keys s ≡ (ok tt, s')
        → k.get_validator h a s'
          ≡ ok (if is_visited k keys a then reset_validator allowed text v else v)
    unfolding for_each
    reset_loop [] s s' v there e = ap (λ x. k.get_validator h a x) (sym (ap (λ r. r.1) e)) ∙ there
    reset_loop (key ∷ keys) s s' v there e =
        let (_, s₁, first, rest) =
          after-eq-ok (reset_at_key k h allowed key s)
            (λ _. for_each (reset_at_key k h allowed) keys) e in
        let one = one_key key s s₁ v there first in
        let all = reset_loop keys s₁ s' _ one rest in
        let twice = reset_validator-twice text v in all ∙ ground (arith, twice)

    -- Where the loop returns, the validator under an address is unbonded from height 0 if one of
    -- the keys is its, and jailed then if an allow list is given that lacks its text; a validator
    -- that is jailed stays so, and its other fields are as before. A validator that no key belongs
    -- to is as before. The staking keeper keeps its laws.
    pub reset_validators :
        (keys : List Bytes) (s s' : k.Store) (v : Validator)
        → k.get_validator h a s ≡ ok v
        → for_each (reset_at_key k h allowed) keys s ≡ (ok tt, s')
        → k.get_validator h a s' ≡ ok (if is_visited k keys a then restarted allowed text v else v)
    reset_validators keys s s' v there e =
        reset_loop keys s s' v there e
        ∙ ap (λ x. ok (if is_visited k keys a then x else v))
            (reset_validator-restarted allowed text v)
