-- ===== src/Go/Strings/Split.antt =====
-- `strings.Split` by a separator of one byte.
use stable_coin.Prelude.{ℕ, Bytes, List, [], ◌∷◌, ◌==◌, if◌then◌else◌}

-- Puts a byte in front of the first part.
abbrev on_first : ℕ → List Bytes → List Bytes
on_first b [] = (b ∷ []) ∷ []
on_first b (part ∷ parts) = (b ∷ part) ∷ parts

unfoldable pub split : ℕ → Bytes → List Bytes
split sep [] = [] ∷ []
split sep (b ∷ s) = if b == sep then [] ∷ split sep s else on_first b (split sep s)
