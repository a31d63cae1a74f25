-- ===== src/Wire/Decode/Total.antt =====
-- Decoding comes to an end on every input: each round of the loop takes a byte at least, so the
-- fuel of `Unmarshal`, the number of bytes and one more, never runs out.
use stable_coin.Prelude.{
  ℕ, zero, suc, ◌+◌, ◌≤◌, ◌<◌, Bytes, [], ◌∷◌, Option, none, some, ltb, length, arith, length-drop,
}
use stable_coin.Wire.Result.{Result, unexpected_eof, invalid_length, end_group, illegal_tag}
use stable_coin.Wire.Decode.{
  is_negative, read_message, Fields, field, or_skip, unmarshal_loop, unmarshal_with,
}
use stable_coin.Wire.Settles.{
  Settles, ok-Settles, fail-Settles, >>=-Settles, fail_if-Settles, if-Settles,
}
use stable_coin.Wire.Decode.Skip.{read_varint-Settles, skip-Settles, read_string-Settles}

-- What a case of the switch leaves is no longer than `n` bytes.
abbrev pub Moves : {M : Type 0} → ℕ → Option (M × ℕ × Bytes) → Type 0
Moves n none = Unit {0}
Moves n (some r) = length r.2 ≤ n

pub field-Settles :
    {A M : Type 0} (n : ℕ) (read : Result (A × ℕ × Bytes)) (set : A → M)
    → Settles (λ r. length r.2 ≤ n) read
    → Settles (Moves n) (field read set)
field-Settles n read set h = >>=-Settles read _ h (λ r p. ok-Settles _ p)

-- A message whose switch never wants fuel and leaves no more bytes than it was given.
pub record IsSettled {M : Type 0} (fields : Fields M) : Type 0 where
  pub settles :
      (l field_num wire_type : ℕ) (m : M) (index : ℕ) (rest : Bytes)
      → Settles (Moves (length rest)) (fields l field_num wire_type m index rest)

module _ {M : Type 0} where
  or_skip-Settles :
      (l : ℕ) (m : M) (index b n : ℕ) (rest : Bytes) (parsed : Option (M × ℕ × Bytes))
      → Moves n parsed
      → n ≤ length rest
      → Settles (λ r. length r.2 ≤ length rest) (or_skip l m index (b ∷ rest) parsed)
  unfolding or_skip
  or_skip-Settles l m index b n rest (some r) p h = ok-Settles _ (omega (arith, p))
  or_skip-Settles l m index b n rest none p h =
      >>=-Settles _ _ (skip-Settles (b ∷ rest)) (λ k above.
        fail_if-Settles (is_negative (index + k)) invalid_length _ (λ e. cc)
          (fail_if-Settles (ltb l (index + k)) unexpected_eof _ (λ e. cc)
            (ok-Settles _ (omega (arith, length-drop k (b ∷ rest))))))

  unmarshal_loop-Settles :
      (fields : Fields M)
      → IsSettled fields
      → (l fuel : ℕ) (m : M) (index : ℕ) (d : Bytes) → length d < fuel
      → Settles (λ _. Unit {0}) (unmarshal_loop fields l fuel m index d)
  unfolding unmarshal_loop
  unmarshal_loop-Settles fields f l zero m index d h = absurd (omega arith)
  unmarshal_loop-Settles fields f l (suc fuel) m index [] h =
      if-Settles (ltb l index) _ _ (fail-Settles unexpected_eof (λ e. cc)) (ok-Settles m tt)
  unmarshal_loop-Settles fields f l (suc fuel) m index (b ∷ rest) h =
      >>=-Settles _ _ (read_varint-Settles 0 0 index (b ∷ rest)) (λ tag p.
        fail_if-Settles _ end_group _ (λ e. cc)
          (fail_if-Settles _ illegal_tag _ (λ e. cc)
            (>>=-Settles _ _ (f.settles l _ _ m tag.1 tag.2) (λ parsed q.
              >>=-Settles _ _
                (or_skip-Settles l m index b (length tag.2) rest parsed q (omega (arith, p.1)))
                (λ next r.
                  unmarshal_loop-Settles fields f l fuel next.0 next.1 next.2
                    (omega (arith, r)))))))

  pub unmarshal_with-Settles :
      (fields : Fields M)
      → IsSettled fields
      → (m : M) (d : Bytes) → Settles (λ _. Unit {0}) (unmarshal_with fields m d)
  unfolding unmarshal_with
  unmarshal_with-Settles fields f m d =
      unmarshal_loop-Settles fields f (length d) (suc (length d)) m 0 d (omega arith)

pub read_message-Settles :
    {N : Type 0} (fields : Fields N) (n : N) (l wire_type index : ℕ) (d : Bytes)
    → IsSettled fields
    → Settles (λ r. length r.2 ≤ length d) (read_message fields n l wire_type index d)
unfolding read_message
read_message-Settles fields n l wire_type index d f =
    >>=-Settles _ _ (read_string-Settles l wire_type index d)
      (λ r p. >>=-Settles _ _ (unmarshal_with-Settles fields f n r.0) (λ n' _. ok-Settles _ p))
