-- ===== src/Go/Strings/Itoa.antt =====
-- `strconv.Itoa` and `strings.HasPrefix`.
use stable_coin.Prelude.{
  ℕ, zero, suc, ◌+◌, ◌/◌, ◌%◌, ◌≡◌, refl, Bytes, Bool, true, false, ◌&&◌, [], ◌∷◌, ◌++◌, ◌==◌,
  if◌then◌else◌,
}
use stable_coin.Prelude.Int.{ℤ, pos, negsuc}
use stable_coin.Go.Strings.{lit}

-- The last digits of `n`, in front of `after`.
last_digits : ℕ → ℕ → Bytes → Bytes
last_digits zero n after = after
last_digits (suc fuel) n after =
    let more = last_digits fuel (n / 10) ((48 + n % 10) ∷ after) in
    if n / 10 == 0 then (48 + n % 10) ∷ after else more

-- An int of 64 bits has at most 19 digits.
unfoldable pub itoa : ℤ → Bytes
unfolding last_digits
itoa (pos n) = last_digits 19 n []
itoa (negsuc n) = 45 ∷ last_digits 19 (n + 1) []

unfoldable pub has_prefix : Bytes → Bytes → Bool
has_prefix s [] = true
has_prefix [] (p ∷ ps) = false
has_prefix (b ∷ s) (p ∷ ps) = b == p && has_prefix s ps

itoa_test : itoa (negsuc 26656) ++ itoa (pos 0) ≡ lit "-266570"
unfolding itoa
itoa_test = refl
