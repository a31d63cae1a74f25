-- ===== src/Go/Action.antt =====
-- Chains of calls that change a state, and `for … range` loops over them.
use mathlib.Core.List.{append_assoc, append-nil}
use mathlib.Core.Path.{subst}
use native.Mathlib.Omega.{arith}
use stable_coin.Prelude.{ℕ, zero, suc, ◌+◌, ◌≡◌, ap, List, [], ◌∷◌, ◌++◌}
use stable_coin.Go.Outcome.{Outcome, ok, err, panic, Done, Action, after, after-eq-ok}

infixl 5 ◌>>=◌ ◌>>◌
abbrev pub ◌>>=◌ : {S A B : Type 0} → Action S A → (A → Action S B) → Action S B
◌>>=◌ first next s = after (first s) next

abbrev pub ◌>>◌ : {S B : Type 0} → Action S Done → Action S B → Action S B
first >> second = first >>= λ _. second

abbrev pub pure : {S A : Type 0} → A → Action S A
pure a s = (ok a, s)

-- A call that needs no state, and one that only reads it.
abbrev pub calling : {S A : Type 0} → Outcome A → Action S A
calling r s = (r, s)

abbrev pub reads : {S A : Type 0} → (S → Outcome A) → Action S A
reads f s = (f s, s)

-- `if err != nil { panic(err) }`
abbrev pub fatal : {A : Type 0} → Outcome A → Outcome A
fatal (ok a) = ok a
fatal (err e) = panic
fatal panic = panic

abbrev pub fatal_after : {S A : Type 0} → Outcome A × S → Outcome A × S
fatal_after (r, s) = (fatal r, s)

abbrev pub or_die : {S A : Type 0} → Action S A → Action S A
or_die call s = fatal_after (call s)

-- `_, _ = f()`: the error is dropped.
abbrev pub dropped : {A : Type 0} → Outcome A → Outcome Done
dropped (ok a) = ok tt
dropped (err e) = ok tt
dropped panic = panic

abbrev pub dropped_after : {S A : Type 0} → Outcome A × S → Outcome Done × S
dropped_after (r, s) = (dropped r, s)

abbrev pub ignoring : {S A : Type 0} → Action S A → Action S Done
ignoring call s = dropped_after (call s)

-- `for _, x := range xs { … }` with a body that returns from the function on an error.
unfoldable pub for_each : {S A : Type 0} → (A → Action S Done) → List A → Action S Done
for_each body [] = pure tt
for_each body (x ∷ xs) = do body x; for_each body xs

-- `for i := i; i < i + n; i++ { … }`
unfoldable pub for_count : {S : Type 0} → (ℕ → Action S Done) → ℕ → ℕ → Action S Done
for_count body i zero = pure tt
for_count body i (suc n) = do body i; for_count body (i + 1) n

-- A loop that returns has run its body on each element, one after the other: what the body makes
-- true of an element, and keeps of the elements before, holds in the end.
pub for_each-inv :
    {S A : Type 0} (P : List A → S → Type 0) (body : A → Action S Done)
    → ((seen : List A) (x : A) (s s' : S)
        → P seen s
        → body x s ≡ (ok tt, s')
        → P (seen ++ (x ∷ [])) s')
    → (seen xs : List A) (s s' : S) → P seen s
    → for_each body xs s ≡ (ok tt, s')
    → P (seen ++ xs) s'
unfolding for_each
for_each-inv P body step seen [] s s' h e =
    let same : s ≡ s' = ap (λ r. r.1) e in rw (append-nil seen) (subst (P seen) same h)
for_each-inv P body step seen (x ∷ xs) s s' h e =
    let (_, s₁, one, rest) = after-eq-ok (body x s) (λ _. for_each body xs) e in
    rw (append_assoc seen (x ∷ []) xs) at
      (for_each-inv P body step (seen ++ (x ∷ [])) xs s₁ s' (step seen x s s₁ h one) rest)

pub fatal-eq-ok : {A : Type 0} (r : Outcome A) {a : A} → fatal r ≡ ok a → r ≡ ok a
fatal-eq-ok (ok x) h = h
fatal-eq-ok (err e) h = cc
fatal-eq-ok panic h = cc

pub or_die-eq-ok :
    {S A : Type 0} (r : Outcome A × S) {a : A} {s : S} → fatal_after r ≡ (ok a, s) → r ≡ (ok a, s)
or_die-eq-ok (ok x, s) h = h
or_die-eq-ok (err e, s) h = cc
or_die-eq-ok (panic, s) h = cc

-- The same for a loop that counts.
pub for_count-inv :
    {S : Type 0} (P : ℕ → S → Type 0) (body : ℕ → Action S Done)
    → ((i : ℕ) (s s' : S) → P i s → body i s ≡ (ok tt, s') → P (i + 1) s')
    → (i n : ℕ) (s s' : S) → P i s
    → for_count body i n s ≡ (ok tt, s')
    → P (i + n) s'
unfolding for_count
for_count-inv P body step i zero s s' h e =
    let same : s ≡ s' = ap (λ r. r.1) e in
    let last : i + 0 ≡ i = omega arith in rw last (subst (P i) same h)
for_count-inv P body step i (suc n) s s' h e =
    let (_, s₁, one, rest) = after-eq-ok (body i s) (λ _. for_count body (i + 1) n) e in
    let count : i + suc n ≡ i + 1 + n = omega arith in
    rw count (for_count-inv P body step (i + 1) n s₁ s' (step i s s₁ h one) rest)

-- What every step keeps, the chain keeps, however it ends.
pub after-keeps :
    {S A B V : Type 0} (view : S → V) (r : Outcome A × S) (f : A → Action S B) (v : V)
    → view r.1 ≡ v
    → ((a : A) (s : S) → view s ≡ v → view (f a s).1 ≡ v)
    → view (after r f).1 ≡ v
after-keeps view (ok a, s) f v h step = step a s h
after-keeps view (err e, s) f v h step = h
after-keeps view (panic, s) f v h step = h
