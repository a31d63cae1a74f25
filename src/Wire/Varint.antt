-- ===== src/Wire/Varint.antt =====
-- The variable-length integers: `sovTx`, `encodeVarintTx` and the reading loop of `Unmarshal`,
-- which params.pb.go and the other files repeat. A uint64 is a number below 2^64.
pub mod Size
pub mod Read
use Prim.Native.Nat.{bit_and, bit_or}
use stable_coin.Prelude.{
  ℕ, zero, suc, ◌+◌, ◌-◌, ◌*◌, ◌/◌, ◌%◌, ◌^◌, Bytes, [], ◌∷◌, leb, ltb, ◌==◌, if◌then◌else◌,
}
use stable_coin.Wire.Result.{Result, ok, fail, int_overflow, unexpected_eof}

-- `wire |= uint64(b&0x7F) << shift`
abbrev pub add_group : ℕ → ℕ → ℕ → ℕ
add_group wire b shift = bit_or wire (bit_and b 0x7f * 2 ^ shift % 2 ^ 64)

-- `for shift := uint(0); ; shift += 7 { … }`, on the bytes `dAtA[iNdEx:]`. The result is the
-- number, the index behind it and the bytes from there on.
unfoldable pub read_varint : ℕ → ℕ → ℕ → Bytes → Result (ℕ × ℕ × Bytes)
read_varint shift wire index [] = if leb 64 shift then fail int_overflow else fail unexpected_eof
read_varint shift wire index (b ∷ rest) =
    let wire' = add_group wire b shift in
    let more = read_varint (shift + 7) wire' (index + 1) rest in
    if leb 64 shift
    then fail int_overflow
    else if ltb b 0x80
    then ok (wire', index + 1, rest)
    else more

-- math/bits.Len64, for numbers below 2^64: `fuel` digits at most.
unfoldable pub len_bits : ℕ → ℕ → ℕ
len_bits zero x = 0
len_bits (suc fuel) x = let more = len_bits fuel (x / 2) in if x == 0 then 0 else more + 1

-- `(math_bits.Len64(x|1) + 6) / 7`
unfoldable pub sov : ℕ → ℕ
unfolding len_bits
sov x = (len_bits 64 (bit_or x 1) + 6) / 7
