-- ===== src/Wire/Buffer/Writes.antt =====
-- What the writing operations put into the slice, whatever stands around.
use Prim.Native.Nat.{bit_and, bit_or}
use mathlib.Core.List.{append_assoc}
use native.Mathlib.Nat.{pow-suc, add-zero}
use stable_coin.Prelude.{
  ℕ, zero, suc, ◌+◌, ◌/◌, ◌%◌, ◌^◌, ◌≤◌, ◌<◌, ◌≡◌, refl, sym, ◌∙◌, Bytes, [], ◌∷◌, ◌++◌, some, true,
  false, leb, ltb, length, take, drop, arith, Bool-cases, inl, inr, length-append, length-drop,
}
use stable_coin.Wire.Bits.{bit_and_7f, bit_or_shifted}
use stable_coin.Wire.Varint.{sov}
use stable_coin.Wire.Varint.Size.{groups, sov-length}
use stable_coin.Wire.Buffer.{
  back, write_byte, overwrite, copy_at, put_groups, Op, ◌then_write◌, encode_varint, put_bytes,
  put_byte, put_nothing,
}

-- `op` replaces the bytes in front of the index by `enc`, and leaves the index at its first byte.
abbrev WritesAt : Op → Bytes → Type 0
WritesAt op enc =
    (front old behind : Bytes)
    → length old ≡ length enc
    → op (front ++ (old ++ behind)) (length front + length old)
      ≡ some (front ++ (enc ++ behind), length front)

pub record Writes (op : Op) (enc : Bytes) : Type 0 where
  pub writes : WritesAt op enc

write_byte-append :
    (front : Bytes) (x : ℕ) (behind : Bytes) (b : ℕ)
    → write_byte (front ++ (x ∷ behind)) (length front) b ≡ some (front ++ (b ∷ behind))
unfolding write_byte
write_byte-append [] x behind b = refl
write_byte-append (f ∷ front) x behind b = rw (write_byte-append front x behind b)

overwrite-append :
    (old s behind : Bytes) → length old ≡ length s → overwrite (old ++ behind) s ≡ s ++ behind
unfolding overwrite
overwrite-append [] [] [] h = refl
overwrite-append [] [] (b ∷ behind) h = refl
overwrite-append [] (y ∷ s) behind h = absurd (omega arith)
overwrite-append (x ∷ old) [] behind h = absurd (omega arith)
overwrite-append (x ∷ old) (y ∷ s) behind h = rw (overwrite-append old s behind (omega arith))

copy_at-append :
    (front old s behind : Bytes)
    → length old ≡ length s
    → copy_at (front ++ (old ++ behind)) (length front) s ≡ some (front ++ (s ++ behind))
unfolding copy_at
copy_at-append [] old s behind h = rw (overwrite-append old s behind h)
copy_at-append (f ∷ front) old s behind h = rw (copy_at-append front old s behind h)

low_group : (v : ℕ) → bit_or (bit_and v 0x7f) 0x80 % 256 ≡ v % 128 + 128
low_group v = rw bit_and_7f (omega (arith, bit_or_shifted 7 (v % 128) 1 (omega arith)))

snoc_append :
    (front : Bytes) (b : ℕ) (behind : Bytes) → (front ++ (b ∷ [])) ++ behind ≡ front ++ (b ∷ behind)
snoc_append front b behind = append_assoc front (b ∷ []) behind

put_groups-last :
    (fuel : ℕ) (d : Bytes) (o v : ℕ) → v < 128 → put_groups (suc fuel) d o v ≡ write_byte d o v
unfolding put_groups
put_groups-last fuel d o v h =
    let byte : v % 256 ≡ v = omega arith in
    let stop : leb (2 ^ 7) v ≡ false = ground arith in rw (stop, byte)

put_groups-more :
    (fuel : ℕ) (d d' : Bytes) (o v : ℕ)
    → 128 ≤ v
    → write_byte d o (v % 128 + 128) ≡ some d'
    → put_groups (suc fuel) d o v ≡ put_groups fuel d' (o + 1) (v / 128)
unfolding put_groups
put_groups-more fuel d d' o v h e =
    let go : leb (2 ^ 7) v ≡ true = ground arith in rw (go, low_group, e)

put_last-append :
    (fuel v : ℕ) (front old behind : Bytes)
    → v < 128
    → length old ≡ 1
    → put_groups (suc fuel) (front ++ (old ++ behind)) (length front) v
      ≡ some (front ++ (v ∷ behind))
put_last-append fuel v front [] behind hv hl = absurd (omega arith)
put_last-append fuel v front (x ∷ y ∷ old) behind hv hl = absurd (omega arith)
put_last-append fuel v front (x ∷ []) behind hv hl =
    put_groups-last fuel _ _ v hv ∙ write_byte-append front x behind v

put_groups-append :
    (k fuel v : ℕ) (front old behind : Bytes)
    → v < 128 ^ suc k
    → k < fuel
    → length old ≡ length (groups k v)
    → put_groups fuel (front ++ (old ++ behind)) (length front) v
      ≡ some (front ++ (groups k v ++ behind))
unfolding groups
put_groups-append k zero v front old behind hv hf hl = absurd (omega arith)
put_groups-append zero (suc fuel) v front old behind hv hf hl =
    put_last-append fuel v front old behind hv hl
put_groups-append (suc k) (suc fuel) v front [] behind hv hf hl = ground arith
put_groups-append (suc k) (suc fuel) v front (x ∷ old) behind hv hf hl =
    elim (Bool-cases (ltb v 128)) [
      | inl small ↦
          rw small (put_last-append fuel v front (x ∷ old) behind (ground arith) (rw small at hl))
      | inr large ↦
          let b : ℕ = v % 128 + 128 in
          let rest : length old ≡ length (groups k (v / 128)) = omega (arith, rw large at hl) in
          let next =
            put_groups-append k fuel (v / 128) (front ++ (b ∷ [])) old behind
              (omega (arith, hv, pow-suc 128 (suc k))) (omega arith) rest in
          rw large (
            put_groups-more fuel _ _ (length front) v (ground arith)
              (write_byte-append front x (old ++ behind) b)
            ∙ (rw
                (
                  snoc_append front b (old ++ behind),
                  snoc_append front b (groups k (v / 128) ++ behind),
                  length-append front (b ∷ []),
                )
                at next))
    ]

pub back-add : (n m : ℕ) → back (n + m) m ≡ some n
back-add n m = ground arith

-- The encoded number stands in front of the offset.
encode_varint-WritesAt : (v : ℕ) → v < 2 ^ 64 → WritesAt (encode_varint v) (groups 9 v)
unfolding encode_varint
encode_varint-WritesAt v h front old behind hl =
    let size : sov v ≡ length old = sov-length v h ∙ sym hl in
    rw (
      size,
      back-add (length front) (length old),
      put_groups-append 9 10 v front old behind (omega arith) (omega arith) hl,
    )

put_bytes-WritesAt : (s : Bytes) → WritesAt (put_bytes s) s
unfolding put_bytes
put_bytes-WritesAt s front old behind hl =
    rw (sym hl, back-add (length front) (length old), copy_at-append front old s behind hl)

put_byte-WritesAt : (b : ℕ) → WritesAt (put_byte b) (b ∷ [])
unfolding put_byte
put_byte-WritesAt b front [] behind hl = absurd (omega arith)
put_byte-WritesAt b front (x ∷ y ∷ old) behind hl = absurd (omega arith)
put_byte-WritesAt b front (x ∷ []) behind hl =
    rw (back-add (length front) 1, write_byte-append front x behind b)

put_nothing-WritesAt : WritesAt put_nothing []
put_nothing-WritesAt front [] behind hl = rw (add-zero)
put_nothing-WritesAt front (x ∷ old) behind hl = absurd (omega arith)

pub take-drop : (n : ℕ) (xs : Bytes) → take n xs ++ drop n xs ≡ xs
take-drop zero xs = refl
take-drop (suc n) [] = refl
take-drop (suc n) (x ∷ xs) = rw (take-drop n xs)

pub length-take_le : (n : ℕ) (xs : Bytes) → n ≤ length xs → length (take n xs) ≡ n
length-take_le zero xs h = refl
length-take_le (suc n) [] h = absurd (omega arith)
length-take_le (suc n) (x ∷ xs) h = omega (arith, length-take_le n xs (omega arith))

then_write-append :
    (f g : Op) (a b : Bytes)
    → WritesAt f a
    → WritesAt g b
    → (front early late behind : Bytes) → length early ≡ length b
    → length late ≡ length a
    → (f then_write g)
        (front ++ ((early ++ late) ++ behind))
        (length front + length (early ++ late))
      ≡ some (front ++ ((b ++ a) ++ behind), length front)
unfolding ◌then_write◌
then_write-append f g a b hf hg front early late behind he hl =
    let one = hf (front ++ early) late behind hl in
    let two = hg front early (a ++ behind) he in
    let start : length front + length (early ++ late) ≡ length (front ++ early) + length late =
      omega (arith, length-append early late, length-append front early) in
    rw
      (
        start,
        append_assoc early late behind,
        append_assoc b a behind,
        sym (append_assoc front early (late ++ behind)),
        one,
        append_assoc front early (a ++ behind),
        length-append front early,
      )
      two

-- What is written later stands in front.
pub then_write-Writes :
    {f g : Op} {a b : Bytes} → Writes f a → Writes g b → Writes (f then_write g) (b ++ a)
then_write-Writes {f} {g} {a} {b} hf hg = record {
  writes = λ front old behind hl.
      let n : ℕ = length b in
      let long : n ≤ length old = omega (arith, hl, length-append b a) in
      let late : length (drop n old) ≡ length a =
        omega (arith, length-drop n old, hl, length-append b a) in
      rw (take-drop n old) at (
        then_write-append f g a b hf.writes hg.writes front (take n old) (drop n old) behind
          (length-take_le n old long) late);
}

pub encode_varint-Writes : (v : ℕ) → v < 2 ^ 64 → Writes (encode_varint v) (groups 9 v)
encode_varint-Writes v h = record { writes = encode_varint-WritesAt v h }

pub put_bytes-Writes : (s : Bytes) → Writes (put_bytes s) s
put_bytes-Writes s = record { writes = put_bytes-WritesAt s }

pub put_byte-Writes : (b : ℕ) → Writes (put_byte b) (b ∷ [])
put_byte-Writes b = record { writes = put_byte-WritesAt b }

pub put_nothing-Writes : Writes put_nothing []
put_nothing-Writes = record { writes = put_nothing-WritesAt }
