-- ===== src/Wire/Settles.antt =====
-- Results that are not for want of fuel.
use mathlib.Core.Path.{subst}
use stable_coin.Prelude.{◌≡◌, ◌≢◌, refl, ap, Bool, true, false, if◌then◌else◌}
use stable_coin.Wire.Result.{Result, ok, fail, ◌>>=◌, ◌>>◌, fail_if, WireError, stuck}

-- The result is not that of an empty fuel, and if it is a value, then the value has the property.
pub record Settles {A : Type 0} (P : A → Type 0) (r : Result A) : Type 0 where
  pub unstuck : r ≢ fail stuck
  pub settled : (a : A) → r ≡ ok a → P a

pub ok-Settles : {A : Type 0} {P : A → Type 0} (a : A) → P a → Settles P (ok a)
ok-Settles {A} {P} a p = record {
  unstuck = λ e. cc;
  settled = λ b e. let eq : a ≡ b = cc in subst P eq p;
}

pub fail-Settles : {A : Type 0} {P : A → Type 0} (e : WireError) → e ≢ stuck → Settles P (fail e)
fail-Settles e h = record { unstuck = λ eq. h cc; settled = λ b eq. cc }

pub >>=-Settles :
    {A B : Type 0} {P : A → Type 0} {Q : B → Type 0} (m : Result A) (f : A → Result B)
    → Settles P m
    → ((a : A) → P a → Settles Q (f a))
    → Settles Q (m >>= f)
>>=-Settles (ok a) f h k = k a (h.settled a refl)
>>=-Settles (fail e) f h k = fail-Settles e (λ eq. h.unstuck (ap fail eq))

pub fail_if-Settles :
    {B : Type 0} {Q : B → Type 0} (b : Bool) (e : WireError) (k : Result B)
    → e ≢ stuck
    → Settles Q k
    → Settles Q (fail_if b e >> k)
fail_if-Settles true e k h s = fail-Settles e h
fail_if-Settles false e k h s = s

pub if-Settles :
    {B : Type 0} {Q : B → Type 0} (b : Bool) (x y : Result B)
    → Settles Q x
    → Settles Q y
    → Settles Q (if b then x else y)
if-Settles true x y hx hy = hx
if-Settles false x y hx hy = hy

pub map-Settles :
    {A : Type 0} {P Q : A → Type 0} {r : Result A}
    → ((a : A) → P a → Q a)
    → Settles P r
    → Settles Q r
map-Settles f s = record { unstuck = s.unstuck; settled = λ a e. f a (s.settled a e) }
