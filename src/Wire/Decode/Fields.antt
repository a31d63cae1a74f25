-- ===== src/Wire/Decode/Fields.antt =====
-- What reads the encoding of a field: the cases of the switch undo the pieces of
-- `MarshalToSizedBuffer`.
use mathlib.Core.List.{append_assoc}
use stable_coin.Prelude.{
  ℕ, ◌+◌, ◌/◌, ◌%◌, ◌^◌, ◌<◌, ◌≡◌, ◌∙◌, Bytes, [], ◌∷◌, ◌++◌, Bool, true, false, leb, ltb, length,
  arith, length-append, take-append, drop-append,
}
use stable_coin.Wire.Result.{ok}
use stable_coin.Wire.Varint.{read_varint}
use stable_coin.Wire.Varint.Size.{groups}
use stable_coin.Wire.Varint.Read.{read_varint-groups, last_byte}
use stable_coin.Wire.Buffer.Fields.{string_field, bool_field, message_field}
use stable_coin.Wire.Decode.{read_string, read_bool, read_message, field, Fields}
use stable_coin.Wire.Decode.Step.{IsTag, Reads, nothing-Reads, field-Reads, unmarshal_with-Reads}

-- The payload of a string field.
abbrev payload : Bytes → Bytes
payload s = groups 9 (length s) ++ s

read_string-payload :
    (s : Bytes) (l i : ℕ) (rest : Bytes)
    → i + length (payload s ++ rest) ≡ l
    → l < 2 ^ 63
    → read_string l 2 i (payload s ++ rest) ≡ ok (s, i + length (payload s), rest)
unfolding read_string
read_string-payload s l i rest hl small =
    let n : ℕ = length s in
    let g : ℕ = length (groups 9 n) in
    let text = append_assoc (groups 9 n) s rest in
    let whole : i + g + n + length rest ≡ l =
      omega (arith, hl, length-append (payload s) rest, length-append (groups 9 n) s) in
    let number = read_varint-groups n i (s ++ rest) (omega arith) in
    let size : leb (2 ^ 63) n ≡ false = ground arith in
    let post : leb (2 ^ 63) (i + g + n) ≡ false = ground arith in
    let inside : ltb l (i + g + n) ≡ false = ground arith in
    let offset : i + length (payload s) ≡ i + g + n = omega (arith, length-append (groups 9 n) s) in
    rw (text, number, size, post, inside, take-append s rest, drop-append s rest, offset)

read_varint-byte :
    (v i : ℕ) (rest : Bytes) → v < 128 → read_varint 0 0 i (v ∷ rest) ≡ ok (v, i + 1, rest)
read_varint-byte v i rest h =
    last_byte v 0 0 i rest h (omega arith) (omega arith) (omega arith) ∙ ground arith

module _ {M : Type 0} (fields : Fields M) where
  -- A string field that is absent when it is empty: the message must hold the empty string then.
  pub string_field-Reads :
      (t : ℕ) (m : M) (set : Bytes → M)
      → IsTag t
      → t % 8 ≡ 2
      → ((l i : ℕ) (rest : Bytes)
          → fields l (t / 8) 2 m i rest ≡ field (read_string l 2 i rest) set)
      → set [] ≡ m
      → (s : Bytes) → Reads fields m (string_field t s) (set s)
  unfolding string_field
  string_field-Reads t m set tag wire_type case start [] = rw start (nothing-Reads fields m)
  string_field-Reads t m set tag wire_type case start (b ∷ s) =
      field-Reads fields t (payload (b ∷ s)) m (set (b ∷ s)) tag (λ l i rest hl small. rw (
        wire_type,
        case l i (payload (b ∷ s) ++ rest),
        read_string-payload (b ∷ s) l i rest hl small,
      ))

  pub bool_field-Reads :
      (t : ℕ) (m : M) (set : Bool → M)
      → IsTag t
      → t % 8 ≡ 0
      → ((l i : ℕ) (rest : Bytes) → fields l (t / 8) 0 m i rest ≡ field (read_bool 0 i rest) set)
      → set false ≡ m
      → (b : Bool) → Reads fields m (bool_field t b) (set b)
  unfolding bool_field read_bool
  bool_field-Reads t m set tag wire_type case start false = rw start (nothing-Reads fields m)
  bool_field-Reads t m set tag wire_type case start true =
      field-Reads fields t (1 ∷ []) m (set true) tag (λ l i rest hl small.
        rw (wire_type, case l i (1 ∷ rest), read_varint-byte 1 i rest (omega arith)))

  -- An embedded message is read into the one that is there.
  pub message_field-Reads :
      {N : Type 0} (inner : Fields N) (t : ℕ) (m : M) (n n' : N) (set : N → M)
      → IsTag t
      → t % 8 ≡ 2
      → ((l i : ℕ) (rest : Bytes)
          → fields l (t / 8) 2 m i rest ≡ field (read_message inner n l 2 i rest) set)
      → (enc : Bytes) → Reads inner n enc n'
      → Reads fields m (message_field t enc) (set n')
  unfolding message_field read_message
  message_field-Reads inner t m n n' set tag wire_type case enc r =
      field-Reads fields t (payload enc) m (set n') tag (λ l i rest hl small.
        let short : length enc < 2 ^ 63 =
          omega
            (arith, length-append (payload enc) rest, length-append (groups 9 (length enc)) enc) in
        rw (
          wire_type,
          case l i (payload enc ++ rest),
          read_string-payload enc l i rest hl small,
          unmarshal_with-Reads inner r short,
        ))
