-- ===== src/Wire/Message.antt =====
-- What ties the two halves of a generated file together for one message.
use stable_coin.Prelude.{
  ℕ, ◌^◌, ◌+◌, ◌<◌, ◌≤◌, ◌≡◌, refl, sym, ◌∙◌, Bytes, [], ◌∷◌, ◌++◌, Option, some, Bool, true, false,
  ltb, length, arith, Bool-cases, inl, inr,
}
use stable_coin.Wire.Result.{ok}
use stable_coin.Wire.Varint.Size.{groups, sov-length}
use stable_coin.Wire.Buffer.{
  Op, ◌then_write◌, put_string, to_sized_buffer, marshal_with, string_size, bool_size, message_size,
}
use stable_coin.Wire.Buffer.Writes.{Writes, then_write-Writes}
use stable_coin.Wire.Buffer.Fields.{
  string_field, bool_field, message_field, to_sized_buffer-Writes, put_string-Writes,
  marshal_with-Writes,
}
use stable_coin.Wire.Decode.{Fields, unmarshal_with}
use stable_coin.Wire.Decode.Step.{Reads, unmarshal_with-Reads}
use stable_coin.Prelude.{length-append}

-- `enc` is the encoding of `m`: it is written, it is as long as `Size` says, and it is read back.
pub record Layout {M : Type 0} (size : ℕ) (op : Op) (fields : Fields M) (start m : M) (enc : Bytes)
    : Type 0 where
  pub written : Writes op enc
  pub sized : size ≡ length enc
  pub read : Reads fields start enc m

pub length-string_field :
    (t : ℕ) (s : Bytes) → length s < 2 ^ 64 → length (string_field t s) ≡ string_size s
unfolding string_field string_size
length-string_field t [] h = refl
length-string_field t (b ∷ s) h =
    let given : ltb 0 (length (b ∷ s)) ≡ true = ground arith in
    rw given (
      omega
        (arith, length-append (groups 9 (length (b ∷ s))) (b ∷ s), sov-length (length (b ∷ s)) h))

pub length-bool_field : (t : ℕ) (b : Bool) → length (bool_field t b) ≡ bool_size b
unfolding bool_field bool_size
length-bool_field t false = refl
length-bool_field t true = refl

pub length-message_field :
    (t : ℕ) (enc : Bytes)
    → length enc < 2 ^ 64
    → length (message_field t enc) ≡ message_size (length enc)
unfolding message_field message_size
length-message_field t enc h =
    omega (arith, length-append (groups 9 (length enc)) enc, sov-length (length enc) h)

-- A string is shorter than its field, as `Size` counts it.
pub string_size_le : (s : Bytes) → length s ≤ string_size s
unfolding string_size
string_size_le [] = omega arith
string_size_le (b ∷ s) = ground arith

pub message_size_le : (l : ℕ) → l ≤ message_size l
unfolding message_size
message_size_le l = omega arith

marshal_with-eq-some :
    (size : ℕ) (fill : Bytes → Option (Bytes × ℕ)) {bz : Bytes}
    → marshal_with size fill ≡ some bz
    → size < 2 ^ 63
unfolding marshal_with
marshal_with-eq-some size fill h = elim (Bool-cases (ltb size (2 ^ 63))) [
  | inl small ↦ ground arith
  | inr large ↦ absurd (cc (rw large at h))
]

module _ {M : Type 0} {size : ℕ} {op : Op} {fields : Fields M} {start m : M} {enc : Bytes} where
  pub marshal-Layout :
      Layout size op fields start m enc
      → size < 2 ^ 63
      → marshal_with size (to_sized_buffer op) ≡ some enc
  marshal-Layout y h =
      marshal_with-Writes (to_sized_buffer op) enc size
        (λ front old e. to_sized_buffer-Writes front old y.written e) y.sized h

  -- The message is marshalled, to as many bytes as `Size` says, and read back.
  pub round_trip :
      Layout size op fields start m enc
      → size < 2 ^ 63
      → (bz : Bytes) × (marshal_with size (to_sized_buffer op) ≡ some bz)
        × (size ≡ length bz)
        × (unmarshal_with fields start bz ≡ ok m)
  round_trip y h =
      let size_is = y.sized in
      (enc, marshal-Layout y h, size_is, unmarshal_with-Reads fields y.read (omega arith))

  pub read_back :
      (size < 2 ^ 63 → Layout size op fields start m enc)
      → (bz : Bytes) → marshal_with size (to_sized_buffer op) ≡ some bz
      → unmarshal_with fields start bz ≡ ok m
  read_back f bz h =
      let small = marshal_with-eq-some size (to_sized_buffer op) h in
      let y = f small in
      let size_is = y.sized in
      let same : some bz ≡ some enc = sym h ∙ marshal-Layout y small in
      let eq : bz ≡ enc = cc in rw eq (unmarshal_with-Reads fields y.read (omega arith))

-- The layout that MsgMint and MsgBurn share.
unfoldable pub three_strings : Bytes → Bytes → Bytes → Bytes
three_strings a b c = string_field 0xa a ++ (string_field 0x12 b ++ string_field 0x1a c)

pub three_strings_size :
    (a b c : Bytes)
    → string_size a + string_size b + string_size c < 2 ^ 63
    → string_size a + string_size b + string_size c ≡ length (three_strings a b c)
unfolding three_strings
three_strings_size a b c h =
    let i = string_size_le a in
    let j = string_size_le b in
    let k = string_size_le c in
    omega (
      arith,
      length-append (string_field 0xa a) (string_field 0x12 b ++ string_field 0x1a c),
      length-append (string_field 0x12 b) (string_field 0x1a c),
      length-string_field 0xa a (omega arith),
      length-string_field 0x12 b (omega arith),
      length-string_field 0x1a c (omega arith),
    )

pub three_strings-Writes :
    (a b c : Bytes)
    → string_size a + string_size b + string_size c < 2 ^ 63
    → Writes
        (put_string 0x1a c then_write put_string 0x12 b then_write put_string 0xa a)
        (three_strings a b c)
unfolding three_strings
three_strings-Writes a b c h =
    let i = string_size_le a in
    let j = string_size_le b in
    let k = string_size_le c in
    then_write-Writes
      (then_write-Writes (put_string-Writes 0x1a c (omega arith))
        (put_string-Writes 0x12 b (omega arith)))
      (put_string-Writes 0xa a (omega arith))
