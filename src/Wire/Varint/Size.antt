-- ===== src/Wire/Varint/Size.antt =====
-- `sov` against the bytes of the encoding.
use stable_coin.Prelude.{
  ℕ, zero, suc, ◌+◌, ◌*◌, ◌/◌, ◌%◌, ◌^◌, ◌≤◌, ◌<◌, ◌≡◌, ◌≢◌, refl, ap, ◌∙◌, Bytes, [], ◌∷◌, length,
  ltb, arith, Bool-cases, inl, inr, if◌then◌else◌,
}
use native.Mathlib.Nat.{pow-suc}
use stable_coin.Wire.Bits.{bit_or_one}
use stable_coin.Wire.Varint.{len_bits, sov}

-- The encoding of a number below 128 ^ (k + 1): groups of seven bits, lowest first, and the top
-- bit set on all bytes but the last.
unfoldable pub groups : ℕ → ℕ → Bytes
groups zero v = v ∷ []
groups (suc k) v =
    let more = groups k (v / 128) in if ltb v 128 then v ∷ [] else (v % 128 + 128) ∷ more

len_bits-suc : (f x : ℕ) → x ≢ 0 → len_bits (suc f) x ≡ len_bits f (x / 2) + 1
unfolding len_bits
len_bits-suc f x h = ground arith

-- Seven digits off.
len_bits-group : (f x : ℕ) → 128 ≤ x → len_bits (7 + f) x ≡ len_bits f (x / 128) + 7
len_bits-group f x h =
    let fuel : 7 + f ≡ suc (suc (suc (suc (suc (suc (suc f)))))) = omega arith in
    let halves : x / 2 / 2 / 2 / 2 / 2 / 2 / 2 ≡ x / 128 = omega arith in
    rw fuel (
      len_bits-suc _ x (omega arith)
      ∙ ap (λ t. t + 1) (len_bits-suc _ (x / 2) (omega arith))
      ∙ ap (λ t. t + 1 + 1) (len_bits-suc _ (x / 2 / 2) (omega arith))
      ∙ ap (λ t. t + 1 + 1 + 1) (len_bits-suc _ (x / 2 / 2 / 2) (omega arith))
      ∙ ap (λ t. t + 1 + 1 + 1 + 1) (len_bits-suc _ (x / 2 / 2 / 2 / 2) (omega arith))
      ∙ ap (λ t. t + 1 + 1 + 1 + 1 + 1) (len_bits-suc _ (x / 2 / 2 / 2 / 2 / 2) (omega arith))
      ∙ ap (λ t. t + 1 + 1 + 1 + 1 + 1 + 1)
          (len_bits-suc _ (x / 2 / 2 / 2 / 2 / 2 / 2) (omega arith))
      ∙ rw halves (omega arith))

len_bits-le : (k f x : ℕ) → x < 2 ^ k → len_bits f x ≤ k
unfolding len_bits
len_bits-le k zero x h = omega arith
len_bits-le zero (suc f) x h = ground arith
len_bits-le (suc k) (suc f) x h =
    ground (arith, len_bits-le k f (x / 2) (omega (arith, pow-suc 2 k)))

len_bits-pos : (f x : ℕ) → 0 < x → 0 < len_bits (suc f) x
unfolding len_bits
len_bits-pos f x h = ground arith

one_group : (f x : ℕ) → 0 < x → x < 128 → (len_bits (suc f) x + 6) / 7 ≡ 1
one_group f x pos h = omega (arith, len_bits-pos f x pos, len_bits-le 7 (suc f) x h)

-- The digits of a positive number, counted by groups of seven.
seven_groups :
    (k g x : ℕ)
    → 0 < x
    → x < 128 ^ suc k
    → (len_bits (7 * k + suc g) x + 6) / 7 ≡ length (groups k x)
unfolding groups
seven_groups zero g x pos h =
    let fuel : 7 * 0 + suc g ≡ suc g = omega arith in rw fuel (one_group g x pos h)
seven_groups (suc k) g x pos h = elim (Bool-cases (ltb x 128)) [
  | inl small ↦
      let fuel : 7 * suc k + suc g ≡ suc (7 * suc k + g) = omega arith in
      rw (small, fuel) (one_group (7 * suc k + g) x pos (ground arith))
  | inr large ↦
      let fuel : 7 * suc k + suc g ≡ 7 + (7 * k + suc g) = omega arith in
      let long : 128 ≤ x = ground (arith, large) in
      rw (large, fuel, len_bits-group (7 * k + suc g) x long)
        (omega
          (arith, seven_groups k g (x / 128) (omega arith) (omega (arith, h, pow-suc 128 (suc k)))))
]

groups-odd : (k v : ℕ) → length (groups k (v / 2 * 2 + 1)) ≡ length (groups k v)
unfolding groups
groups-odd zero v = refl
groups-odd (suc k) v =
    let same : (v / 2 * 2 + 1) / 128 ≡ v / 128 = omega arith in ground (arith, same)

-- For every uint64 `sov` is the length of its encoding.
pub sov-length : (v : ℕ) → v < 2 ^ 64 → sov v ≡ length (groups 9 v)
sov-length v h =
    unfold sov in
    rw bit_or_one (seven_groups 9 0 (v / 2 * 2 + 1) (omega arith) (omega arith) ∙ groups-odd 9 v)
