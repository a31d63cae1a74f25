-- ===== src/Go/Outcome.antt =====
-- How a Go call with an `error` result ends, and a call that may change a state on its way. The
-- state comes back after an error too: what was written stays written until the caller drops it.
use stable_coin.Prelude.{ℕ, Bytes, ◌≡◌, refl, Bool, true, false, Option, none, some, if◌then◌else◌}

-- The errors that x/stablecoin returns. The first seven are the sentinels of types/errors.go; the
-- next four wrap another error with a text; `not_found` is collections.ErrNotFound; the two
-- `status_` errors are made by the query server; `external n` stands for an error that a library
-- returned and the module passes on; `message text` is errors.New.
pub data Error : Type 0 where
  paused not_issuer invalid_amount invalid_denom invalid_issuer invalid_signer : Error
  invalid_max_supply : Error
  bad_max_supply exceeds_max_supply supply_underflow invalid_authority : Error
  not_found : Error
  status_invalid_argument status_internal : Error
  external : ℕ → Error
  message : Bytes → Error

pub data Outcome (A : Type 0) : Type 0 where
  ok : A → Outcome A
  err : Error → Outcome A
  panic : Outcome A

abbrev pub Done : Type 0
Done = Unit {0}

infixl 5 ◌>>=◌ ◌>>◌
abbrev pub ◌>>=◌ : {A B : Type 0} → Outcome A → (A → Outcome B) → Outcome B
ok value >>= next = next value
panic >>= next = panic
err e >>= next = err e

abbrev pub ◌>>◌ : {B : Type 0} → Outcome Done → Outcome B → Outcome B
first >> second = first >>= λ _. second

abbrev pub raise_if : Bool → Error → Outcome Done
raise_if c e = if c then err e else ok tt

abbrev pub or_raise : {A : Type 0} → Option A → Error → Outcome A
or_raise none e = err e
or_raise (some a) e = ok a

-- For a library call that panics where it has no result.
abbrev pub or_panic : {A : Type 0} → Option A → Outcome A
or_panic none = panic
or_panic (some a) = ok a

-- `value, err := f(); if err != nil { return err }`
abbrev pub check_err : {A : Type 0} → A × Option Error → Outcome A
check_err (a, none) = ok a
check_err (a, some e) = err e

abbrev pub Action : Type 0 → Type 0 → Type 0
Action S A = S → Outcome A × S

-- The next call, on the state that the last one left.
abbrev pub after : {S A B : Type 0} → Outcome A × S → (A → Action S B) → Outcome B × S
after (ok a, s) f = f a s
after (err e, s) f = (err e, s)
after (panic, s) f = (panic, s)

-- A part that only reads.
abbrev pub reading : {S A : Type 0} → (S → Outcome A) → Action S A
reading f s = (f s, s)

-- Inversions of a successful step.
pub >>=-eq-ok :
    {A B : Type 0} (call : Outcome A) (next : A → Outcome B) {result : B}
    → (call >>= next) ≡ ok result
    → (value : A) × (call ≡ ok value) × (next value ≡ ok result)
>>=-eq-ok panic next h = cc
>>=-eq-ok (err e) next h = cc
>>=-eq-ok (ok value) next h = (value, refl, h)

pub raise_if-eq-ok :
    {B : Type 0} (t : Bool) (e : Error) (m : Outcome B) {b : B}
    → (raise_if t e >> m) ≡ ok b
    → (t ≡ false) × (m ≡ ok b)
raise_if-eq-ok true e m h = cc
raise_if-eq-ok false e m h = (refl, h)

pub or_raise-eq-ok :
    {A : Type 0} (o : Option A) (e : Error) {a : A} → or_raise o e ≡ ok a → o ≡ some a
or_raise-eq-ok none e h = cc
or_raise-eq-ok (some x) e h = cc

pub or_panic-eq-ok : {A : Type 0} (o : Option A) {a : A} → or_panic o ≡ ok a → o ≡ some a
or_panic-eq-ok none h = cc
or_panic-eq-ok (some x) h = cc

pub check_err-eq-ok :
    {A : Type 0} (m : Outcome (A × Option Error)) {a : A}
    → (m >>= check_err) ≡ ok a
    → m ≡ ok (a, none)
check_err-eq-ok (ok (x, none)) h = cc
check_err-eq-ok (ok (x, some e)) h = cc
check_err-eq-ok (err e) h = cc
check_err-eq-ok panic h = cc

pub after-eq-ok :
    {S A B : Type 0} (r : Outcome A × S) (f : A → Action S B) {b : B} {s' : S}
    → after r f ≡ (ok b, s')
    → (a : A) × (s : S) × (r ≡ (ok a, s)) × (f a s ≡ (ok b, s'))
after-eq-ok (ok a, s) f h = (a, s, refl, h)
after-eq-ok (err e, s) f h = cc
after-eq-ok (panic, s) f h = cc

pub reading-eq-ok :
    {S A B : Type 0} (r : Outcome A) (s : S) (f : A → Action S B) {b : B} {s' : S}
    → after (r, s) f ≡ (ok b, s')
    → (a : A) × (r ≡ ok a) × (f a s ≡ (ok b, s'))
reading-eq-ok (ok a) s f h = (a, refl, h)
reading-eq-ok (err e) s f h = cc
reading-eq-ok panic s f h = cc

pub ok_inj : {A : Type 0} {a b : A} → ok a ≡ ok b → a ≡ b
ok_inj e = cc
