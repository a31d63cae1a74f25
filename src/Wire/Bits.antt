-- ===== src/Wire/Bits.antt =====
-- The `&`, `|` and shifts of the generated code as arithmetic.
use Prim.Native.Nat.{min, max, digits, bitwise, bit_and, bit_or, bit_and-bitwise, bit_or-bitwise}
use native.Mathlib.Nat.{pow-suc}
use stable_coin.Prelude.{ℕ, zero, suc, ◌+◌, ◌*◌, ◌/◌, ◌%◌, ◌^◌, ◌≤◌, ◌<◌, ◌≡◌, refl, ap, arith}

-- The native operations run on a count of digits; any count that is large enough gives the same.
enough_digits :
    (z : ℕ → ℕ) (op : ℕ → ℕ → ℕ) (m n x y : ℕ)
    → x ≤ m
    → x ≤ n
    → digits z op m x y ≡ digits z op n x y
enough_digits z op zero zero x y hm hn = refl
enough_digits z op zero (suc n) zero y hm hn = refl
enough_digits z op zero (suc n) (suc x) y hm hn = absurd (omega arith)
enough_digits z op (suc m) zero zero y hm hn = refl
enough_digits z op (suc m) zero (suc x) y hm hn = absurd (omega arith)
enough_digits z op (suc m) (suc n) zero y hm hn = refl
enough_digits z op (suc m) (suc n) (suc x) y hm hn =
    rw (enough_digits z op m n (suc x / 2) (y / 2) (omega arith) (omega arith))

first_digit :
    (z : ℕ → ℕ) (op : ℕ → ℕ → ℕ) (x y : ℕ)
    → bitwise z op (suc x) y ≡ bitwise z op (suc x / 2) (y / 2) * 2 + op (suc x % 2) (y % 2)
first_digit z op x y =
    let fuel = enough_digits z op x (suc x / 2) (suc x / 2) (y / 2) (omega arith) (omega arith) in
    omega (arith, fuel)

and_digit : (x y : ℕ) → bit_and x y ≡ bit_and (x / 2) (y / 2) * 2 + min (x % 2) (y % 2)
and_digit zero y = simp bit_and-bitwise (omega arith)
and_digit (suc x) y = simp bit_and-bitwise (first_digit (λ b. 0) min x y)

or_digit : (x y : ℕ) → bit_or x y ≡ bit_or (x / 2) (y / 2) * 2 + max (x % 2) (y % 2)
or_digit zero y = simp bit_or-bitwise (omega arith)
or_digit (suc x) y = simp bit_or-bitwise (first_digit (λ b. b) max x y)

bit_and-zero : (fuel x : ℕ) → x ≤ fuel → bit_and x 0 ≡ 0
bit_and-zero fuel zero h = refl
bit_and-zero zero (suc x) h = absurd (omega arith)
bit_and-zero (suc fuel) (suc x) h =
    omega (arith, and_digit (suc x) 0, bit_and-zero fuel (suc x / 2) (omega arith))

bit_and_1 : (x : ℕ) → bit_and x 1 ≡ x % 2
bit_and_1 x = omega (arith, and_digit x 1, bit_and-zero (x / 2) (x / 2) (omega arith))

-- `wire & 0x7`
pub bit_and_7 : (x : ℕ) → bit_and x 7 ≡ x % 8
bit_and_7 x = omega (arith, and_digit x 7, and_digit (x / 2) 3, bit_and_1 (x / 2 / 2))

-- `b & 0x7f`
pub bit_and_7f : (x : ℕ) → bit_and x 0x7f ≡ x % 128
bit_and_7f x = omega (
  arith,
  and_digit x 127,
  and_digit (x / 2) 63,
  and_digit (x / 2 / 2) 31,
  and_digit (x / 2 / 2 / 2) 15,
  bit_and_7 (x / 2 / 2 / 2 / 2),
)

zero-bit_or : (y : ℕ) → bit_or 0 y ≡ y
zero-bit_or y = bit_or-bitwise 0 y

-- `x | m << k` is a sum where `x` has no more than `k` bits.
pub bit_or_shifted : (k x m : ℕ) → x < 2 ^ k → bit_or x (m * 2 ^ k) ≡ x + m * 2 ^ k
bit_or_shifted zero x m h =
    let none_set : x ≡ 0 = omega arith in rw none_set (omega (arith, zero-bit_or (m * 1)))
bit_or_shifted (suc k) x m h =
    let whole : m * 2 ^ suc k ≡ 2 * (m * 2 ^ k) =
      omega (arith, ap (λ (t : ℕ). m * t) (pow-suc 2 k)) in
    let half : m * 2 ^ suc k / 2 ≡ m * 2 ^ k = omega (arith, whole) in
    let below : bit_or (x / 2) (m * 2 ^ k) ≡ x / 2 + m * 2 ^ k =
      bit_or_shifted k (x / 2) m (omega (arith, pow-suc 2 k)) in
    let digit = rw half at (or_digit x (m * 2 ^ suc k)) in omega (arith, digit, below, whole)

bit_or-zero : (fuel x : ℕ) → x ≤ fuel → bit_or x 0 ≡ x
bit_or-zero fuel zero h = refl
bit_or-zero zero (suc x) h = absurd (omega arith)
bit_or-zero (suc fuel) (suc x) h =
    omega (arith, or_digit (suc x) 0, bit_or-zero fuel (suc x / 2) (omega arith))

-- `x | 1`
pub bit_or_one : (x : ℕ) → bit_or x 1 ≡ x / 2 * 2 + 1
bit_or_one x = omega (arith, or_digit x 1, bit_or-zero (x / 2) (x / 2) (omega arith))
