-- ===== src/Go/IntMap.antt =====
-- A Go map with keys of type int, as the list of its assignments, the newest first.
use stable_coin.Prelude.{ℕ, zero, suc, List, [], ◌∷◌, Option, none, some, ◌==◌, if◌then◌else◌}

abbrev pub IntMap : Type 0 → Type 0
IntMap A = List (ℕ × A)

abbrev pub put : {A : Type 0} → ℕ → A → IntMap A → IntMap A
put i a m = (i, a) ∷ m

abbrev pub find : {A : Type 0} → ℕ → IntMap A → Option A
find i [] = none
find i ((j, a) ∷ m) = let rest = find i m in if j == i then some a else rest

-- A missing key reads as the empty text.
abbrev text_or_empty : Option (List ℕ) → List ℕ
text_or_empty none = []
text_or_empty (some s) = s

abbrev pub find_text : ℕ → IntMap (List ℕ) → List ℕ
find_text i m = text_or_empty (find i m)

-- An element of a slice: `none` is the panic out of range.
abbrev pub get_elem? : {A : Type 0} → List A → ℕ → Option A
get_elem? [] i = none
get_elem? (x ∷ xs) zero = some x
get_elem? (x ∷ xs) (suc i) = get_elem? xs i
