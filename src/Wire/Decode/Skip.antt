-- ===== src/Wire/Decode/Skip.antt =====
-- The readers of numbers, strings and unknown fields come to an end, and move on: each round takes
-- a byte at least, so the fuel of `skip`, the number of bytes and one more, never runs out.
use Prim.Native.Nat.{bit_and}
use stable_coin.Prelude.{
  ℕ, zero, suc, ◌+◌, ◌≤◌, ◌<◌, Bytes, [], ◌∷◌, not, leb, ltb, ◌==◌, length, arith, length-drop,
}
use stable_coin.Wire.Result.{
  int_overflow, unexpected_eof, invalid_length, wrong_wire_type, unexpected_end_of_group,
  illegal_wire_type,
}
use stable_coin.Wire.Varint.{read_varint, add_group}
use stable_coin.Wire.Decode.{
  is_negative, skip_varint, skip_payload, skip_loop, skip, read_string, read_bool,
}
use stable_coin.Wire.Settles.{
  Settles, ok-Settles, fail-Settles, >>=-Settles, fail_if-Settles, if-Settles, map-Settles,
}

-- A position behind `index` with fewer bytes than `n`, and one that is not before it.
abbrev Behind : ℕ → ℕ → ℕ × Bytes → Type 0
Behind index n r = (index < r.0) × (length r.1 < n)

abbrev NotBefore : ℕ → ℕ → ℕ × Bytes → Type 0
NotBefore index n r = (index ≤ r.0) × (length r.1 ≤ n)

pub read_varint-Settles :
    (shift wire index : ℕ) (d : Bytes)
    → Settles (λ r. Behind index (length d) (r.1, r.2)) (read_varint shift wire index d)
unfolding read_varint
read_varint-Settles shift wire index [] =
    if-Settles (leb 64 shift) _ _ (fail-Settles int_overflow (λ e. cc))
      (fail-Settles unexpected_eof (λ e. cc))
read_varint-Settles shift wire index (b ∷ rest) =
    let more = read_varint-Settles (shift + 7) (add_group wire b shift) (index + 1) rest in
    if-Settles (leb 64 shift) _ _ (fail-Settles int_overflow (λ e. cc)) (
      if-Settles (ltb b 0x80) _ _ (ok-Settles _ (omega arith, omega arith))
        (map-Settles (λ a p. (omega (arith, p.0), omega (arith, p.1))) more))

skip_varint-Settles :
    (shift index : ℕ) (d : Bytes) → Settles (Behind index (length d)) (skip_varint shift index d)
unfolding skip_varint
skip_varint-Settles shift index [] =
    if-Settles (leb 64 shift) _ _ (fail-Settles int_overflow (λ e. cc))
      (fail-Settles unexpected_eof (λ e. cc))
skip_varint-Settles shift index (b ∷ rest) =
    let more = skip_varint-Settles (shift + 7) (index + 1) rest in
    if-Settles (leb 64 shift) _ _ (fail-Settles int_overflow (λ e. cc)) (
      if-Settles (ltb b 0x80) _ _ (ok-Settles _ (omega arith, omega arith))
        (map-Settles (λ a p. (omega (arith, p.0), omega (arith, p.1))) more))

skip_payload-Settles :
    (wire_type depth index : ℕ) (d : Bytes)
    → Settles (λ r. NotBefore index (length d) (r.1, r.2)) (skip_payload wire_type depth index d)
unfolding skip_payload
skip_payload-Settles wire_type depth index d =
    if-Settles (wire_type == 0) _ _
      (>>=-Settles _ _ (skip_varint-Settles 0 index d)
        (λ r p. ok-Settles _ (omega (arith, p.0), omega (arith, p.1))))
      (if-Settles (wire_type == 1) _ _ (ok-Settles _ (omega arith, omega (arith, length-drop 8 d)))
        (if-Settles (wire_type == 2) _ _
          (>>=-Settles _ _ (read_varint-Settles 0 0 index d) (λ r p.
            fail_if-Settles (is_negative r.0) invalid_length _ (λ e. cc)
              (ok-Settles _ (omega (arith, p.0), omega (arith, p.1, length-drop r.0 r.2)))))
          (if-Settles (wire_type == 3) _ _ (ok-Settles _ (omega arith, omega arith)) (
            if-Settles (wire_type == 4) _ _
              (if-Settles (depth == 0) _ _ (fail-Settles unexpected_end_of_group (λ e. cc))
                (ok-Settles _ (omega arith, omega arith)))
              (if-Settles (wire_type == 5) _ _
                (ok-Settles _ (omega arith, omega (arith, length-drop 4 d)))
                (fail-Settles illegal_wire_type (λ e. cc)))))))

-- The skipped length is above the index where the loop starts.
skip_loop-Settles :
    (fuel depth index : ℕ) (d : Bytes)
    → length d < fuel
    → Settles (λ n. index < n) (skip_loop fuel depth index d)
unfolding skip_loop
skip_loop-Settles zero depth index d h = absurd (omega arith)
skip_loop-Settles (suc fuel) depth index [] h = fail-Settles unexpected_eof (λ e. cc)
skip_loop-Settles (suc fuel) depth index (b ∷ rest) h =
    >>=-Settles _ _ (read_varint-Settles 0 0 index (b ∷ rest)) (λ tag p.
      >>=-Settles _ _ (skip_payload-Settles (bit_and tag.0 0x7) depth tag.1 tag.2) (λ next q.
        fail_if-Settles (is_negative next.1) invalid_length _ (λ e. cc)
          (if-Settles (next.0 == 0) _ _ (ok-Settles _ (omega (arith, p.0, q.0))) (
            map-Settles (λ n above. omega (arith, p.0, q.0))
              (skip_loop-Settles fuel next.0 next.1 next.2 (omega (arith, p.1, q.1)))))))

pub skip-Settles : (d : Bytes) → Settles (λ n. 0 < n) (skip d)
unfolding skip
skip-Settles d = skip_loop-Settles (suc (length d)) 0 0 d (omega arith)

pub read_string-Settles :
    (l wire_type index : ℕ) (d : Bytes)
    → Settles (λ r. length r.2 ≤ length d) (read_string l wire_type index d)
unfolding read_string
read_string-Settles l wire_type index d =
    fail_if-Settles (not (wire_type == 2)) wrong_wire_type _ (λ e. cc)
      (>>=-Settles _ _ (read_varint-Settles 0 0 index d) (λ r p.
        fail_if-Settles (is_negative r.0) invalid_length _ (λ e. cc)
          (fail_if-Settles (is_negative (r.1 + r.0)) invalid_length _ (λ e. cc)
            (fail_if-Settles (ltb l (r.1 + r.0)) unexpected_eof _ (λ e. cc)
              (ok-Settles _ (omega (arith, p.1, length-drop r.0 r.2)))))))

pub read_bool-Settles :
    (wire_type index : ℕ) (d : Bytes)
    → Settles (λ r. length r.2 ≤ length d) (read_bool wire_type index d)
unfolding read_bool
read_bool-Settles wire_type index d =
    fail_if-Settles (not (wire_type == 0)) wrong_wire_type _ (λ e. cc)
      (>>=-Settles _ _ (read_varint-Settles 0 0 index d) (λ r p. ok-Settles _ (omega (arith, p.1))))
