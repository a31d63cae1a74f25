-- ===== src/Wire/Buffer/Fields.antt =====
-- What the pieces of `MarshalToSizedBuffer` write for each kind of field, and for a whole message.
use mathlib.Core.List.{append_assoc, append-nil}
use stable_coin.Prelude.{
  ℕ, ◌+◌, ◌-◌, ◌^◌, ◌≤◌, ◌<◌, ◌≡◌, ◌∙◌, Bytes, [], ◌∷◌, ◌++◌, Option, some, Bool, true, false, ltb,
  length, take, drop, replicate, if◌then◌else◌, arith, length-append, length-replicate, length-drop,
  take-append, drop-append,
}
use stable_coin.Wire.Varint.Size.{groups}
use stable_coin.Wire.Buffer.{
  back, Op, put_string, put_bool, put_sized, put_message, to_sized_buffer, marshal_with,
}
use stable_coin.Wire.Buffer.Writes.{
  Writes, then_write-Writes, encode_varint-Writes, put_bytes-Writes, put_byte-Writes,
  put_nothing-Writes, take-drop, length-take_le, back-add,
}

-- A string field: nothing for the empty string, else the tag, the length and the bytes.
unfoldable pub string_field : ℕ → Bytes → Bytes
string_field tag [] = []
string_field tag (b ∷ s) = tag ∷ (groups 9 (length (b ∷ s)) ++ (b ∷ s))

unfoldable pub bool_field : ℕ → Bool → Bytes
bool_field tag b = if b then tag ∷ 1 ∷ [] else []

pub put_string-Writes :
    (tag : ℕ) (s : Bytes) → length s < 2 ^ 64 → Writes (put_string tag s) (string_field tag s)
unfolding put_string string_field
put_string-Writes tag [] h = put_nothing-Writes
put_string-Writes tag (b ∷ s) h =
    let given : ltb 0 (length (b ∷ s)) ≡ true = ground arith in
    rw given (
      then_write-Writes
        (then_write-Writes (put_bytes-Writes (b ∷ s)) (encode_varint-Writes (length (b ∷ s)) h))
        (put_byte-Writes tag))

pub put_bool-Writes : (tag : ℕ) (b : Bool) → Writes (put_bool tag b) (bool_field tag b)
unfolding put_bool bool_field
put_bool-Writes tag false = put_nothing-Writes
put_bool-Writes tag true = then_write-Writes (put_byte-Writes 1) (put_byte-Writes tag)

take-all : (xs : Bytes) → take (length xs) xs ≡ xs
take-all xs = rw (append-nil xs) at (take-append xs [])

-- What a piece writes at the end of a slice.
pub to_sized_buffer-Writes :
    {op : Op} {enc : Bytes} (front old : Bytes)
    → Writes op enc
    → length old ≡ length enc
    → to_sized_buffer op (front ++ old) ≡ some (front ++ enc, length enc)
unfolding to_sized_buffer
to_sized_buffer-Writes {op} {enc} front old w h =
    let whole : op (front ++ old) (length front + length old) ≡ some (front ++ enc, length front) =
      rw (append-nil old, append-nil enc) at (w.writes front old [] h) in
    let size : length front + length old - length front ≡ length enc = omega (arith, h) in
    rw (length-append front old, whole, size)

put_sized-append :
    (fill : Bytes → Option (Bytes × ℕ)) (enc : Bytes)
    → ((front old : Bytes)
        → length old ≡ length enc
        → fill (front ++ old) ≡ some (front ++ enc, length enc))
    → length enc < 2 ^ 64
    → (front early late behind : Bytes) → length early ≡ length (groups 9 (length enc))
    → length late ≡ length enc
    → put_sized fill (front ++ ((early ++ late) ++ behind)) (length front + length (early ++ late))
      ≡ some (front ++ ((groups 9 (length enc) ++ enc) ++ behind), length front)
unfolding put_sized
put_sized-append fill enc w fits front early late behind he hl =
    let inner = w (front ++ early) late hl in
    let start : length front + length (early ++ late) ≡ length ((front ++ early) ++ late) = omega (
      arith,
      length-append early late,
      length-append front early,
      length-append (front ++ early) late,
    ) in
    let text : front ++ ((early ++ late) ++ behind) ≡ ((front ++ early) ++ late) ++ behind =
      simp (append_assoc) in
    let offset : back (length ((front ++ early) ++ late)) (length enc)
        ≡ some (length front + length early) =
      rw (length-append (front ++ early) late, hl, length-append front early)
        (back-add (length front + length early) (length enc)) in
    let number = (encode_varint-Writes (length enc) fits).writes front early (enc ++ behind) he in
    let out : ((front ++ early) ++ enc) ++ behind ≡ front ++ (early ++ (enc ++ behind)) =
      simp append_assoc in
    rw (
      start,
      text,
      take-append ((front ++ early) ++ late) behind,
      drop-append ((front ++ early) ++ late) behind,
      inner,
      offset,
      out,
      number,
      append_assoc (groups 9 (length enc)) enc behind,
    )

-- An embedded message: its length and its bytes.
pub put_sized-Writes :
    (fill : Bytes → Option (Bytes × ℕ)) (enc : Bytes)
    → ((front old : Bytes)
        → length old ≡ length enc
        → fill (front ++ old) ≡ some (front ++ enc, length enc))
    → length enc < 2 ^ 64
    → Writes (put_sized fill) (groups 9 (length enc) ++ enc)
put_sized-Writes fill enc w fits = record {
  writes = λ front old behind hl.
      let b : Bytes = groups 9 (length enc) in
      let long : length b ≤ length old = omega (arith, hl, length-append b enc) in
      let late : length (drop (length b) old) ≡ length enc =
        omega (arith, length-drop (length b) old, hl, length-append b enc) in
      rw (take-drop (length b) old) at (
        put_sized-append fill enc w fits front (take (length b) old) (drop (length b) old) behind
          (length-take_le (length b) old long) late);
}

-- With its tag.
unfoldable pub message_field : ℕ → Bytes → Bytes
message_field tag enc = tag ∷ (groups 9 (length enc) ++ enc)

pub put_message-Writes :
    (tag : ℕ) (fill : Bytes → Option (Bytes × ℕ)) (enc : Bytes)
    → ((front old : Bytes)
        → length old ≡ length enc
        → fill (front ++ old) ≡ some (front ++ enc, length enc))
    → length enc < 2 ^ 64
    → Writes (put_message tag fill) (message_field tag enc)
unfolding put_message message_field
put_message-Writes tag fill enc w fits =
    then_write-Writes (put_sized-Writes fill enc w fits) (put_byte-Writes tag)

-- A message whose `Size` is the length of what is written is marshalled to just that.
pub marshal_with-Writes :
    (fill : Bytes → Option (Bytes × ℕ)) (enc : Bytes) (size : ℕ)
    → ((front old : Bytes)
        → length old ≡ length enc
        → fill (front ++ old) ≡ some (front ++ enc, length enc))
    → size ≡ length enc
    → size < 2 ^ 63
    → marshal_with size fill ≡ some enc
unfolding marshal_with
marshal_with-Writes fill enc size w e h =
    let fits : ltb size (2 ^ 63) ≡ true = ground arith in
    let long : length (replicate size 0) ≡ length enc = length-replicate size 0 ∙ e in
    let filled : fill (replicate size 0) ≡ some (enc, length enc) = w [] (replicate size 0) long in
    rw (fits, filled, take-all enc)
