-- ===== src/Wire/Decode.antt =====
-- The reading half of the generated code: `skipTx` and the loop of `Unmarshal`, which every
-- *.pb.go file repeats. The bytes from the index on stand beside the index, `rest` for
-- `dAtA[iNdEx:]`. An int is a number below 2^64, negative from 2^63 on.
pub mod Skip
pub mod Step
pub mod Fields
pub mod Total
use Prim.Native.Nat.{bit_and}
use stable_coin.Prelude.{
  ℕ, zero, suc, ◌+◌, ◌-◌, ◌/◌, ◌%◌, ◌^◌, Bytes, [], ◌∷◌, Option, none, some, Bool, not, leb, ltb,
  ◌==◌, take, drop, length, ◌||◌, if◌then◌else◌,
}
use stable_coin.Wire.Result.{
  Result, ok, fail, ◌>>=◌, ◌>>◌, fail_if, int_overflow, unexpected_eof, invalid_length, end_group,
  illegal_tag, wrong_wire_type, unexpected_end_of_group, illegal_wire_type, stuck,
}
use stable_coin.Wire.Varint.{read_varint}

-- An int that is less than 0.
abbrev pub is_negative : ℕ → Bool
is_negative n = leb (2 ^ 63) n

-- `case 0` of skipTx: past the last byte of a number.
unfoldable pub skip_varint : ℕ → ℕ → Bytes → Result (ℕ × Bytes)
skip_varint shift index [] = if leb 64 shift then fail int_overflow else fail unexpected_eof
skip_varint shift index (b ∷ rest) =
    let more = skip_varint (shift + 7) (index + 1) rest in
    if leb 64 shift then fail int_overflow else if ltb b 0x80 then ok (index + 1, rest) else more

-- `iNdEx += n`, which may lead past the end.
abbrev pub advance : ℕ → ℕ → ℕ → Bytes → Result (ℕ × ℕ × Bytes)
advance n depth index rest = ok (depth, index + n, drop n rest)

-- `switch wireType` of skipTx, on the depth of the open groups.
unfoldable pub skip_payload : ℕ → ℕ → ℕ → Bytes → Result (ℕ × ℕ × Bytes)
skip_payload wire_type depth index rest =
    if wire_type == 0
    then (skip_varint 0 index rest >>= λ r. ok (depth, r.0, r.1))
    else if wire_type == 1
    then advance 8 depth index rest
    else if wire_type == 2
    then (read_varint 0 0 index rest >>= λ r.
        fail_if (is_negative r.0) invalid_length >> advance r.0 depth r.1 r.2)
    else if wire_type == 3
    then ok (depth + 1, index, rest)
    else if wire_type == 4
    then (if depth == 0 then fail unexpected_end_of_group else ok (depth - 1, index, rest))
    else if wire_type == 5
    then advance 4 depth index rest
    else fail illegal_wire_type

-- The loop of skipTx. Each round takes a byte, so a count above the bytes' number is enough fuel.
unfoldable pub skip_loop : ℕ → ℕ → ℕ → Bytes → Result ℕ
skip_loop zero depth index rest = fail stuck
skip_loop (suc fuel) depth index [] = fail unexpected_eof
skip_loop (suc fuel) depth index (b ∷ rest) = read_varint 0 0 index (b ∷ rest) >>= λ tag.
    skip_payload (bit_and tag.0 0x7) depth tag.1 tag.2 >>= λ next.
    fail_if (is_negative next.1) invalid_length
    >> (let more = skip_loop fuel next.0 next.1 next.2 in if next.0 == 0 then ok next.1 else more)

-- skipTx(dAtA[iNdEx:])
unfoldable pub skip : Bytes → Result ℕ
skip d = skip_loop (suc (length d)) 0 0 d

-- A string field: its wire type, its length and its bytes. `l` is the length of the whole slice.
unfoldable pub read_string : ℕ → ℕ → ℕ → Bytes → Result (Bytes × ℕ × Bytes)
read_string l wire_type index rest =
    fail_if (not (wire_type == 2)) wrong_wire_type
    >> (read_varint 0 0 index rest >>= λ r.
        fail_if (is_negative r.0) invalid_length
        >> (fail_if (is_negative (r.1 + r.0)) invalid_length
            >> (fail_if (ltb l (r.1 + r.0)) unexpected_eof
                >> ok (take r.0 r.2, r.1 + r.0, drop r.0 r.2))))

-- A bool field.
unfoldable pub read_bool : ℕ → ℕ → Bytes → Result (Bool × ℕ × Bytes)
read_bool wire_type index rest =
    fail_if (not (wire_type == 0)) wrong_wire_type
    >> (read_varint 0 0 index rest >>= λ r. ok (not (r.0 == 0), r.1, r.2))

-- `switch fieldNum` of a message: the message with the field that was read, `none` for a field
-- that the message does not have.
abbrev pub Fields : Type 0 → Type 0
Fields M = ℕ → ℕ → ℕ → M → ℕ → Bytes → Result (Option (M × ℕ × Bytes))

module _ {M : Type 0} where
  -- The `default` case: the whole field, from its tag on, is skipped.
  unfoldable pub or_skip : ℕ → M → ℕ → Bytes → Option (M × ℕ × Bytes) → Result (M × ℕ × Bytes)
  or_skip l m index from_tag (some r) = ok r
  or_skip l m index from_tag none = skip from_tag >>= λ n.
      fail_if (is_negative (index + n)) invalid_length
      >> (fail_if (ltb l (index + n)) unexpected_eof >> ok (m, index + n, drop n from_tag))

  -- `for iNdEx < l { … }` and the test behind it. Each round takes a byte.
  unfoldable pub unmarshal_loop : Fields M → ℕ → ℕ → M → ℕ → Bytes → Result M
  unmarshal_loop fields l zero m index rest = fail stuck
  unmarshal_loop fields l (suc fuel) m index [] = if ltb l index then fail unexpected_eof else ok m
  unmarshal_loop fields l (suc fuel) m index (b ∷ rest) =
      read_varint 0 0 index (b ∷ rest) >>= λ tag.
      fail_if (bit_and tag.0 0x7 == 4) end_group
      >> (fail_if (tag.0 / 2 ^ 3 % 2 ^ 32 == 0 || leb (2 ^ 31) (tag.0 / 2 ^ 3 % 2 ^ 32)) illegal_tag
          >> (fields l (tag.0 / 2 ^ 3 % 2 ^ 32) (bit_and tag.0 0x7) m tag.1 tag.2 >>= λ parsed.
              or_skip l m index (b ∷ rest) parsed >>= λ next.
              unmarshal_loop fields l fuel next.0 next.1 next.2))

  -- `Unmarshal`, on the message as it is before.
  unfoldable pub unmarshal_with : Fields M → M → Bytes → Result M
  unmarshal_with fields m d = unmarshal_loop fields (length d) (suc (length d)) m 0 d

-- An embedded message: `m.F.Unmarshal(dAtA[iNdEx:postIndex])` works on the message that is there.
unfoldable pub read_message :
    {N : Type 0} → Fields N → N → ℕ → ℕ → ℕ → Bytes → Result (N × ℕ × Bytes)
read_message fields n l wire_type index rest = read_string l wire_type index rest >>= λ r.
    unmarshal_with fields n r.0 >>= λ n'. ok (n', r.1, r.2)

-- The case of a field: the message with the value that was read.
abbrev pub field :
    {A M : Type 0} → Result (A × ℕ × Bytes) → (A → M) → Result (Option (M × ℕ × Bytes))
field read set = read >>= λ r. ok (some (set r.0, r.1, r.2))
