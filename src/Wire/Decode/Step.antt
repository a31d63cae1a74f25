-- ===== src/Wire/Decode/Step.antt =====
-- One round of the loop of `Unmarshal`, and what reads the encoding of a field.
use mathlib.Core.List.{append_assoc, append-nil}
use native.Mathlib.Nat.{add-zero, zero-add}
use stable_coin.Prelude.{
  ℕ, suc, ◌+◌, ◌-◌, ◌/◌, ◌%◌, ◌^◌, ◌≤◌, ◌<◌, ◌≡◌, ◌≢◌, ◌∙◌, Bytes, [], ◌∷◌, ◌++◌, some, true, false,
  leb, ltb, ◌==◌, ◌||◌, ◌&&◌, not, length, arith, length-append,
}
use stable_coin.Wire.Bits.{bit_and_7}
use stable_coin.Wire.Result.{ok}
use stable_coin.Wire.Varint.{read_varint}
use stable_coin.Wire.Varint.Read.{last_byte}
use stable_coin.Wire.Decode.{Fields, or_skip, unmarshal_loop, unmarshal_with}

-- A tag of one byte, with a field number and a wire type that a message can have.
pub record IsTag (t : ℕ) : Type 0 where
  pub short : t < 128
  pub numbered : 8 ≤ t
  pub no_group : t % 8 ≢ 4

pub is_tag : (t : ℕ) → (ltb t 128 && leb 8 t && not (t % 8 == 4)) ≡ true → IsTag t
is_tag t h = record { short = ground arith; numbered = ground arith; no_group = ground arith }

read_tag : (t i : ℕ) (rest : Bytes) → t < 128 → read_varint 0 0 i (t ∷ rest) ≡ ok (t, i + 1, rest)
read_tag t i rest h =
    last_byte t 0 0 i rest h (omega arith) (omega arith) (omega arith) ∙ ground arith

module _ {M : Type 0} (fields : Fields M) where
  loop-field :
      (l fuel i t : ℕ) (m : M) (rest : Bytes) (next : M × ℕ × Bytes)
      → IsTag t
      → fields l (t / 8) (t % 8) m (i + 1) rest ≡ ok (some next)
      → unmarshal_loop fields l (suc fuel) m i (t ∷ rest)
        ≡ unmarshal_loop fields l fuel next.0 next.1 next.2
  unfolding unmarshal_loop or_skip
  loop-field l fuel i t m rest next h e =
      let short = h.short in
      let numbered = h.numbered in
      let no_group = h.no_group in
      let number : t / 2 ^ 3 % 2 ^ 32 ≡ t / 8 = omega arith in
      let group : t % 8 == 4 ≡ false = ground arith in
      let legal : (t / 8 == 0 || leb (2 ^ 31) (t / 8)) ≡ false = ground arith in
      rw (read_tag t i rest h.short, bit_and_7 t, group, number, legal, e)

  -- Decoding `enc` takes the message from `m` to `m'`, whatever follows, in so many rounds.
  pub record Reads (m : M) (enc : Bytes) (m' : M) : Type 0 where
    pub rounds : ℕ
    pub bounded : rounds ≤ length enc
    pub reads :
        (l i left : ℕ) (rest : Bytes)
        → i + length (enc ++ rest) ≡ l
        → l < 2 ^ 63
        → unmarshal_loop fields l (rounds + left) m i (enc ++ rest)
          ≡ unmarshal_loop fields l left m' (i + length enc) rest

  pub nothing-Reads : (m : M) → Reads m [] m
  nothing-Reads m = record {
    rounds = 0;
    bounded = omega arith;
    reads = λ l i left rest hl small. rw (add-zero i, zero-add left);
  }

  pub append-Reads :
      {m m' m'' : M} {a b : Bytes} → Reads m a m' → Reads m' b m'' → Reads m (a ++ b) m''
  append-Reads {m} {m'} {m''} {a} {b} first second = record {
    rounds = first.rounds + second.rounds;
    bounded = omega (arith, length-append a b, first.bounded, second.bounded);
    reads = λ l i left rest hl small.
        let here = rw (append_assoc a b rest) at hl in
        let one = first.reads l i (second.rounds + left) (b ++ rest) here small in
        let two =
          second.reads l (i + length a) left rest (omega (arith, here, length-append a (b ++ rest)))
            small in
        let offset : i + length (a ++ b) ≡ i + length a + length b =
          omega (arith, length-append a b) in
        let fuel : first.rounds + second.rounds + left ≡ first.rounds + (second.rounds + left) =
          omega arith in
        rw (fuel, append_assoc a b rest, offset) (one ∙ two);
  }

  -- One field: the tag and what its case of the switch reads.
  pub field-Reads :
      (t : ℕ) (enc : Bytes) (m m' : M)
      → IsTag t
      → ((l i : ℕ) (rest : Bytes)
          → i + length (enc ++ rest) ≡ l
          → l < 2 ^ 63
          → fields l (t / 8) (t % 8) m i (enc ++ rest) ≡ ok (some (m', i + length enc, rest)))
      → Reads m (t ∷ enc) m'
  field-Reads t enc m m' tag h = record {
    rounds = 1;
    bounded = omega arith;
    reads = λ l i left rest hl small.
        let fuel : 1 + left ≡ suc left = omega arith in
        let offset : i + suc (length enc) ≡ i + 1 + length enc = omega arith in
        rw (fuel, offset)
          (loop-field l left i t m (enc ++ rest) (m', i + 1 + length enc, rest) tag
            (h l (i + 1) rest (omega arith) small));
  }

  unmarshal_loop-end : (l left : ℕ) (m : M) → unmarshal_loop fields l (suc left) m l [] ≡ ok m
  unfolding unmarshal_loop
  unmarshal_loop-end l left m = let done : ltb l l ≡ false = ground arith in rw done

  -- The whole slice.
  pub unmarshal_with-Reads :
      {m m' : M} {enc : Bytes}
      → Reads m enc m'
      → length enc < 2 ^ 63
      → unmarshal_with fields m enc ≡ ok m'
  unfolding unmarshal_with
  unmarshal_with-Reads {m} {m'} {enc} r small =
      let n : ℕ = length enc in
      let bounded = r.bounded in
      let fuel : suc n ≡ r.rounds + suc (n - r.rounds) = omega arith in
      let run = r.reads n 0 (suc (n - r.rounds)) [] (rw (append-nil enc, zero-add n)) small in
      rw fuel ((rw (append-nil enc, zero-add n) at run) ∙ unmarshal_loop-end n (n - r.rounds) m')
