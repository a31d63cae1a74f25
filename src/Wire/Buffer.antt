-- ===== src/Wire/Buffer.antt =====
-- The writing half of the generated code: `MarshalToSizedBuffer` fills a byte slice from its end,
-- with the index `i` of the first byte that is written. An access outside the slice is a panic,
-- `none`; so is an index that becomes negative, which is always used to access the slice next.
pub mod Writes
pub mod Fields
pub mod RoundTrip
use Prim.Native.Nat.{bit_and, bit_or}
use mathlib.Core.Option
use stable_coin.Prelude.{
  ℕ, zero, suc, ◌+◌, ◌-◌, ◌/◌, ◌%◌, ◌^◌, Bytes, [], ◌∷◌, Option, none, some, Bool, true, false, leb,
  ltb, length, take, drop, ◌++◌, replicate, if◌then◌else◌,
}
use stable_coin.Wire.Varint.{sov}

infixl 5 ◌>>=◌
abbrev pub ◌>>=◌ : {A B : Type 0} → Option A → (A → Option B) → Option B
none >>= f = none
some a >>= f = f a

-- `i -= n`
abbrev pub back : ℕ → ℕ → Option ℕ
back i n = if leb n i then some (i - n) else none

-- `dAtA[i] = b`
unfoldable pub write_byte : Bytes → ℕ → ℕ → Option Bytes
write_byte [] i b = none
write_byte (x ∷ xs) zero b = some (b ∷ xs)
write_byte (x ∷ xs) (suc i) b = Option.map (λ ys. x ∷ ys) (write_byte xs i b)

-- `copy`: as many bytes as both have.
overwrite : Bytes → Bytes → Bytes
overwrite [] s = []
overwrite (x ∷ xs) [] = x ∷ xs
overwrite (x ∷ xs) (y ∷ ys) = y ∷ overwrite xs ys

-- `copy(dAtA[i:], s)`
unfoldable pub copy_at : Bytes → ℕ → Bytes → Option Bytes
unfolding overwrite
copy_at d zero s = some (overwrite d s)
copy_at [] (suc i) s = none
copy_at (x ∷ xs) (suc i) s = Option.map (λ ys. x ∷ ys) (copy_at xs i s)

-- `for v >= 1<<7 { … }; dAtA[offset] = uint8(v)`. A uint64 takes ten rounds at most.
unfoldable pub put_groups : ℕ → Bytes → ℕ → ℕ → Option Bytes
put_groups zero d offset v = none
put_groups (suc fuel) d offset v =
    let more = write_byte d offset (bit_or (bit_and v 0x7f) 0x80 % 256) >>= λ d'.
    put_groups fuel d' (offset + 1) (v / 2 ^ 7) in
    if leb (2 ^ 7) v then more else write_byte d offset (v % 256)

-- What a piece of `MarshalToSizedBuffer` does with the slice and the index.
abbrev pub Op : Type 0
Op = Bytes → ℕ → Option (Bytes × ℕ)

-- One statement after the other.
infixl 6 ◌then_write◌
unfoldable pub ◌then_write◌ : Op → Op → Op
◌then_write◌ f g d i = f d i >>= λ r. g r.0 r.1

-- encodeVarintTx and encodeVarintParams: the number is written in front of `offset`, and the index
-- of its first byte is returned.
unfoldable pub encode_varint : ℕ → Op
encode_varint v d offset =
    back offset (sov v) >>= λ base. put_groups 10 d base v >>= λ d'. some (d', base)

-- `i -= len(s); copy(dAtA[i:], s)`
unfoldable pub put_bytes : Bytes → Op
put_bytes s d i = back i (length s) >>= λ i'. copy_at d i' s >>= λ d'. some (d', i')

-- `i--; dAtA[i] = b`
unfoldable pub put_byte : ℕ → Op
put_byte b d i = back i 1 >>= λ i'. write_byte d i' b >>= λ d'. some (d', i')

abbrev pub put_nothing : Op
put_nothing d i = some (d, i)

-- `if len(m.F) > 0 { … }` for a string field with the given tag byte.
unfoldable pub put_string : ℕ → Bytes → Op
put_string tag s =
    if ltb 0 (length s)
    then put_bytes s then_write encode_varint (length s) then_write put_byte tag
    else put_nothing

-- `if m.F { … }` for a bool field.
unfoldable pub put_bool : ℕ → Bool → Op
put_bool tag b = if b then put_byte (if b then 1 else 0) then_write put_byte tag else put_nothing

-- The body of `MarshalToSizedBuffer`: it starts behind the last byte, and returns the slice with
-- the number of bytes written.
unfoldable pub to_sized_buffer : Op → Bytes → Option (Bytes × ℕ)
to_sized_buffer op d = op d (length d) >>= λ r. some (r.0, length d - r.1)

-- `make([]byte, size)`, which panics for a size that is no int. (Go's sum of the lengths would
-- wrap around there; no strings in memory are that long.)
abbrev pub make_bytes : ℕ → Option Bytes
make_bytes size = if ltb size (2 ^ 63) then some (replicate size 0) else none

-- An embedded message: `size, err := m.F.MarshalToSizedBuffer(dAtA[:i])`, `i -= size`, `i =
-- encodeVarintTx(dAtA, i, uint64(size))`, `i--` and the tag byte. The slice `dAtA[:i]` shares its
-- bytes with `dAtA`.
unfoldable pub put_sized : (Bytes → Option (Bytes × ℕ)) → Op
put_sized fill d i =
    fill (take i d) >>= λ r. back i r.1 >>= λ i'. encode_varint r.1 (r.0 ++ drop i d) i'

unfoldable pub put_message : ℕ → (Bytes → Option (Bytes × ℕ)) → Op
put_message tag fill = put_sized fill then_write put_byte tag

-- The body of `Marshal`, over `Size` and `MarshalToSizedBuffer`.
unfoldable pub marshal_with : ℕ → (Bytes → Option (Bytes × ℕ)) → Option Bytes
marshal_with size fill = make_bytes size >>= λ d. fill d >>= λ r. some (take r.1 r.0)

-- `l = len(m.F); if l > 0 { n += 1 + l + sovTx(uint64(l)) }` of `Size`.
unfoldable pub string_size : Bytes → ℕ
string_size s = if ltb 0 (length s) then 1 + length s + sov (length s) else 0

-- `if m.F { n += 2 }`
unfoldable pub bool_size : Bool → ℕ
bool_size b = if b then 2 else 0

-- `l = m.F.Size(); n += 1 + l + sovTx(uint64(l))`
unfoldable pub message_size : ℕ → ℕ
message_size l = 1 + l + sov l
