-- ===== src/Cmd/MultiNode/Stakes.antt =====
-- Which stake a node gets from the flag.
use stable_coin.Prelude.{
  ℕ, suc, ◌+◌, ◌-◌, ◌≡◌, refl, sym, ap, ◌∙◌, Bytes, true, false, List, [], ◌∷◌, Option, none, some,
  ltb, arith, Bool-cases, inl, inr, ◌==◌, ◌⊎◌, if◌then◌else◌,
}
use stable_coin.Prelude.Int.{ℤ}
use stable_coin.Go.Outcome.{ok, or_panic, >>=-eq-ok, or_panic-eq-ok, ok_inj}
use stable_coin.Go.IntMap.{IntMap, put, find, get_elem?}
use stable_coin.Sdk.{Sdk, Coin, CoinLaws}
use stable_coin.Cmd.MultiNode.Flags.{parse_stakes, default_bond_denom}

abbrev keep_some : Option ℤ → List ℤ → List ℤ
keep_some none xs = xs
keep_some (some a) xs = a ∷ xs

-- The numbers among the texts.
abbrev pub numbers : Sdk → List Bytes → List ℤ
numbers k [] = []
numbers k (text ∷ texts) = keep_some (k.new_int_from_string text) (numbers k texts)

-- The amount of a coin that is found.
abbrev pub found_amount : Option Coin → Option ℤ
found_amount none = none
found_amount (some c) = some c.amount

abbrev or_amount : Option ℤ → Option ℤ → Option ℤ
or_amount none other = other
or_amount (some a) other = some a

or_none : (o : Option ℤ) → or_amount o none ≡ o
or_none none = refl
or_none (some a) = refl

Option-cases : {A : Type 0} (o : Option A) → (o ≡ none) ⊎ ((a : A) × (o ≡ some a))
Option-cases none = inl refl
Option-cases (some a) = inr (a, refl)

-- What is found at `j` after the numbers were put from `top` on.
abbrev put_from : List ℤ → ℕ → ℕ → Option ℤ → Option ℤ
put_from amounts top j before =
    if ltb j top then before else or_amount (get_elem? amounts (j - top)) before

put_from-step :
    (a : ℤ) (amounts : List ℤ) (top j : ℕ) (before : Option ℤ)
    → put_from amounts (top + 1) j (if top == j then some a else before)
      ≡ put_from (a ∷ amounts) top j before
put_from-step a amounts top j before = elim (Bool-cases (ltb j top)) [
  | inl early ↦
      let soon : ltb j (top + 1) ≡ true = ground arith in
      let other : top == j ≡ false = ground arith in rw (early, soon, other)
  | inr late ↦ elim (Bool-cases (top == j)) [
    | inl here ↦
        let soon : ltb j (top + 1) ≡ true = ground arith in
        let first : j - top ≡ 0 = ground arith in rw (late, here, soon, first)
    | inr other ↦
        let passed : ltb j (top + 1) ≡ false = ground arith in
        let next : j - top ≡ suc (j - (top + 1)) = ground arith in rw (late, other, passed, next)
  ]
]

found_amount-put :
    (top j : ℕ) (c : Coin) (m : IntMap Coin)
    → found_amount (find j (put top c m))
      ≡ (if top == j then some c.amount else found_amount (find j m))
found_amount-put top j c m = ground arith

module _ (k : Sdk) (laws : CoinLaws k) where
  stakes_from :
      (texts : List Bytes) (top j : ℕ) (m stakes : IntMap Coin)
      → parse_stakes k texts top m ≡ ok stakes
      → found_amount (find j stakes) ≡ put_from (numbers k texts) top j (found_amount (find j m))
  unfolding parse_stakes
  stakes_from [] top j m stakes e =
      ap (λ m. found_amount (find j m)) (sym (ok_inj e)) ∙ ground arith
  stakes_from (text ∷ texts) top j m stakes e = elim (Option-cases (k.new_int_from_string text)) [
    | inl skipped ↦ rw skipped (stakes_from texts top j m stakes (rw skipped at e))
    | inr (a, read) ↦
        let (c, made, rest) =
          >>=-eq-ok (or_panic (k.new_coin default_bond_denom a)) _ (rw read at e) in
        let amount : c.amount ≡ a =
          (laws.new_coin_lem default_bond_denom a c (or_panic-eq-ok _ made)).1 in
        rw read (
          stakes_from texts (top + 1) j (put top c m) stakes rest
          ∙ ap (put_from (numbers k texts) (top + 1) j) (
              found_amount-put top j c m
              ∙ ap (λ a. if top == j then some a else found_amount (find j m)) amount)
          ∙ put_from-step a (numbers k texts) top j (found_amount (find j m)))
  ]

  -- Where the stakes of the flag are read, the node with number `j` gets the number at place `j`
  -- among those texts that are numbers, so that a text that is none gives its place to the next
  -- one, and the default stake is left for the last nodes.
  pub stakes_shift :
      (texts : List Bytes) (j : ℕ) (stakes : IntMap Coin)
      → parse_stakes k texts 0 [] ≡ ok stakes
      → found_amount (find j stakes) ≡ get_elem? (numbers k texts) j
  stakes_shift texts j stakes e =
      let first : ltb j 0 ≡ false = ground arith in
      let none_before : j - 0 ≡ j = omega arith in
      stakes_from texts 0 j [] stakes e
      ∙ rw (first, none_before) (or_none (get_elem? (numbers k texts) j))
