-- ===== src/Wire/Varint/Read.antt =====
-- The reading loop on an encoded number.
use native.Mathlib.Nat.{pow-suc}
use native.Mathlib.Numerals.{towards_suc}
use stable_coin.Prelude.{
  ℕ, zero, suc, ◌+◌, ◌*◌, ◌/◌, ◌%◌, ◌^◌, ◌<◌, ◌≡◌, ap, ◌∙◌, Bytes, ◌∷◌, ◌++◌, length, ltb, arith,
  Bool-cases, inl, inr,
}
use stable_coin.Wire.Result.{ok}
use stable_coin.Wire.Bits.{bit_and_7f, bit_or_shifted}
use stable_coin.Wire.Varint.{add_group, read_varint}
use stable_coin.Wire.Varint.Size.{groups}

pow_seven : (s : ℕ) → 2 ^ (s + 7) ≡ 128 * 2 ^ s
pow_seven s = simp towards_suc (omega arith)

-- The lowest group of `v` and the others, both shifted by `s`.
groups_shifted : (v s : ℕ) → v * 2 ^ s ≡ v % 128 * 2 ^ s + v / 128 * 2 ^ (s + 7)
groups_shifted v s =
    let parts : v ≡ v / 128 * 128 + v % 128 = omega arith in
    omega (arith, ap (λ (t : ℕ). t * 2 ^ s) parts, ap (λ (t : ℕ). v / 128 * t) (pow_seven s))

-- A group that fits is added.
add_group-fits :
    (wire b s : ℕ)
    → wire < 2 ^ s
    → b % 128 * 2 ^ s < 2 ^ 64
    → add_group wire b s ≡ wire + b % 128 * 2 ^ s
add_group-fits wire b s low fits =
    let same : b % 128 * 2 ^ s % 2 ^ 64 ≡ b % 128 * 2 ^ s = omega arith in
    rw (bit_and_7f b, same) (bit_or_shifted s wire (b % 128) low)

pub last_byte :
    (v wire s i : ℕ) (rest : Bytes)
    → v < 128
    → s < 64
    → wire < 2 ^ s
    → v * 2 ^ s < 2 ^ 64
    → read_varint s wire i (v ∷ rest) ≡ ok (wire + v * 2 ^ s, i + 1, rest)
unfolding read_varint
last_byte v wire s i rest hv hs low fits =
    let same : v % 128 ≡ v = omega arith in
    let sum = rw same at (add_group-fits wire v s low (rw same fits)) in ground (arith, sum)

inner_byte :
    (g wire s i : ℕ) (rest : Bytes)
    → g < 128
    → s < 64
    → wire < 2 ^ s
    → g * 2 ^ s < 2 ^ 64
    → read_varint s wire i ((g + 128) ∷ rest) ≡ read_varint (s + 7) (wire + g * 2 ^ s) (i + 1) rest
unfolding read_varint
inner_byte g wire s i rest hg hs low fits =
    let same : (g + 128) % 128 ≡ g = omega arith in
    let sum = rw same at (add_group-fits wire (g + 128) s low (rw same fits)) in ground (arith, sum)

-- `v` is what is still to be read; `wire` holds the bits below `s`.
read_varint-groups_from :
    (k v wire s i : ℕ) (rest : Bytes)
    → v < 128 ^ suc k
    → s + 7 * k < 64
    → wire < 2 ^ s
    → v * 2 ^ s < 2 ^ 64
    → read_varint s wire i (groups k v ++ rest)
      ≡ ok (wire + v * 2 ^ s, i + length (groups k v), rest)
unfolding groups
read_varint-groups_from zero v wire s i rest hv hs low fits =
    last_byte v wire s i rest hv (omega arith) low fits
read_varint-groups_from (suc k) v wire s i rest hv hs low fits = elim (Bool-cases (ltb v 128)) [
  | inl small ↦ rw small (last_byte v wire s i rest (ground arith) (omega arith) low fits)
  | inr large ↦
      let split = groups_shifted v s in
      let next : wire + v % 128 * 2 ^ s < 2 ^ (s + 7) = grind (arith, pow_seven s, low) in
      rw large (
        inner_byte (v % 128) wire s i (groups k (v / 128) ++ rest) (omega arith) (omega arith) low
          (omega (arith, split))
        ∙ read_varint-groups_from k (v / 128) (wire + v % 128 * 2 ^ s) (s + 7) (i + 1) rest
            (omega (arith, hv, pow-suc 128 (suc k))) (omega arith) next (omega (arith, split))
        ∙ ground (arith, split))
]

-- A uint64 that was encoded is read back, and what follows it is left.
pub read_varint-groups :
    (v i : ℕ) (rest : Bytes)
    → v < 2 ^ 64
    → read_varint 0 0 i (groups 9 v ++ rest) ≡ ok (v, i + length (groups 9 v), rest)
read_varint-groups v i rest h =
    read_varint-groups_from 9 v 0 0 i rest (omega arith) (omega arith) (omega arith) (omega arith)
    ∙ ground arith
