-- ===== src/Example/Decimal.antt =====
-- Integers of 256 bits and a sign, printed and read in decimal.
use stable_coin.Prelude.{
  ℕ, zero, suc, ◌+◌, ◌-◌, ◌*◌, ◌/◌, ◌%◌, ◌^◌, ◌<◌, ◌≡◌, ◌∙◌, refl, Bytes, [], ◌∷◌, Option, none,
  some, Bool, true, false, ltb, leb, ◌==◌, ◌&&◌, if◌then◌else◌, arith, Bool-cases, inl, inr,
}
use native.Mathlib.Nat.{pow-suc}
use stable_coin.Prelude.Int.{int_laws, ℤ, pos, negsuc, pos_part, neg_part, ◌-ℤ◌}
use stable_coin.Sdk.{IsInt}

-- The digits of `n` in front of `after`.
abbrev digits : ℕ → ℕ → Bytes → Bytes
digits zero n after = after
digits (suc fuel) n after =
    let more = digits fuel (n / 10) ((48 + n % 10) ∷ after) in
    if n / 10 == 0 then (48 + n % 10) ∷ after else more

abbrev parse_digits : ℕ → Bytes → Option ℕ
parse_digits value [] = some value
parse_digits value (d ∷ ds) =
    let more = parse_digits (value * 10 + (d - 48)) ds in
    if leb 48 d && ltb d 58 then more else none

abbrev is_signed : Bytes → Bool
is_signed [] = false
is_signed (d ∷ ds) = d == 45

abbrev in_range : ℤ → Bool
in_range a = ltb (pos_part a) (2 ^ 256) && ltb (neg_part a) (2 ^ 256)

abbrev pub checked : ℤ → Option ℤ
checked a = if in_range a then some a else none

abbrev pub print_int : ℤ → Bytes
print_int (pos n) = digits 78 n []
print_int (negsuc n) = 45 ∷ digits 78 (n + 1) []

abbrev nonneg : Option ℕ → Option ℤ
nonneg none = none
nonneg (some n) = checked (pos n)

abbrev negated : Option ℕ → Option ℤ
negated none = none
negated (some n) = checked (pos 0 -ℤ pos n)

abbrev tail : Bytes → Bytes
tail [] = []
tail (d ∷ ds) = ds

abbrev is_empty : Bytes → Bool
is_empty [] = true
is_empty (d ∷ ds) = false

abbrev pub parse_int : Bytes → Option ℤ
parse_int s =
    if is_empty s
    then none
    else if is_signed s
    then negated (parse_digits 0 (tail s))
    else nonneg (parse_digits 0 s)

parse_digits-digit :
    (value m : ℕ) (rest : Bytes)
    → m < 10
    → parse_digits value ((48 + m) ∷ rest) ≡ parse_digits (value * 10 + m) rest
parse_digits-digit value m rest h =
    let digit : leb 48 (48 + m) && ltb (48 + m) 58 ≡ true = ground arith in
    let back : 48 + m - 48 ≡ m = omega arith in rw (digit, back)

parse_digits-digits :
    (fuel n : ℕ) (rest : Bytes)
    → n < 10 ^ suc fuel
    → parse_digits 0 (digits (suc fuel) n rest) ≡ parse_digits n rest
parse_digits-digits zero n rest h =
    let small : n / 10 == 0 ≡ true = ground arith in
    let last : 0 * 10 + n % 10 ≡ n = omega arith in
    rw small (rw last at (parse_digits-digit 0 (n % 10) rest (omega arith)))
parse_digits-digits (suc fuel) n rest h = elim (Bool-cases (n / 10 == 0)) [
  | inl small ↦
      let last : 0 * 10 + n % 10 ≡ n = ground arith in
      rw small (rw last at (parse_digits-digit 0 (n % 10) rest (omega arith)))
  | inr large ↦
      let whole : n / 10 * 10 + n % 10 ≡ n = omega arith in
      let high =
        parse_digits-digits fuel (n / 10) ((48 + n % 10) ∷ rest)
          (omega (arith, pow-suc 10 (suc fuel))) in
      rw large (high ∙ (rw whole at (parse_digits-digit (n / 10) (n % 10) rest (omega arith))))
]

is_signed-digits :
    (fuel n : ℕ) (rest : Bytes) → is_signed rest ≡ false → is_signed (digits fuel n rest) ≡ false
is_signed-digits zero n rest h = h
is_signed-digits (suc fuel) n rest h = elim (Bool-cases (n / 10 == 0)) [
  | inl small ↦ rw small (ground arith)
  | inr large ↦ rw large (is_signed-digits fuel (n / 10) ((48 + n % 10) ∷ rest) (ground arith))
]

is_empty-digits : (fuel n d : ℕ) (rest : Bytes) → is_empty (digits fuel n (d ∷ rest)) ≡ false
is_empty-digits zero n d rest = refl
is_empty-digits (suc fuel) n d rest = elim (Bool-cases (n / 10 == 0)) [
  | inl small ↦ rw small
  | inr large ↦ rw large (is_empty-digits fuel (n / 10) (48 + n % 10) (d ∷ rest))
]

is_empty-print : (n : ℕ) → is_empty (digits 78 n []) ≡ false
is_empty-print n = elim (Bool-cases (n / 10 == 0)) [
  | inl small ↦ rw small
  | inr large ↦ rw large (is_empty-digits 77 (n / 10) (48 + n % 10) [])
]

checked-IsInt : (a : ℤ) → IsInt a → checked a ≡ some a
checked-IsInt a h = let fits : in_range a ≡ true = ground arith in rw fits

minus : (n : ℕ) → pos 0 -ℤ pos (n + 1) ≡ negsuc n
minus n = grind int_laws

-- What is printed is read back.
pub parse_int-print : (a : ℤ) → IsInt a → parse_int (print_int a) ≡ some a
parse_int-print (pos n) h =
    rw (is_empty-print n, is_signed-digits 78 n [] refl, parse_digits-digits 77 n [] (omega arith))
      (checked-IsInt (pos n) h)
parse_int-print (negsuc n) h =
    rw (parse_digits-digits 77 (n + 1) [] (omega arith), minus n) (checked-IsInt (negsuc n) h)

pub checked-eq-some : (a c : ℤ) → checked a ≡ some c → (c ≡ a) × IsInt c
checked-eq-some a c h = elim (Bool-cases (in_range a)) [
  | inl fits ↦ ground arith
  | inr large ↦ absurd (cc (rw large at h))
]
