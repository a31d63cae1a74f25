-- ===== src/Go/Strings/Blank.antt =====
-- `strings.TrimSpace` against the texts that are all white space.
use stable_coin.Prelude.{
  ◌≡◌, refl, ap, ◌∙◌, ◌↔◌, inl, inr, ℕ, true, false, [], ◌∷◌, Bytes, Bool-cases, arith,
}
use stable_coin.Go.Strings.{
  is_space1, is_space2, is_space3, trim_left, trim_right, trim_space, is_empty, is_blank,
}

-- A sequence of white space characters of one, two or three bytes.
data Blank : Bytes → Type 0 where
  end : Blank []
  one : {a : ℕ} {s : Bytes} → is_space1 a ≡ true → Blank s → Blank (a ∷ s)
  two : {a b : ℕ} {s : Bytes} → is_space2 a b ≡ true → Blank s → Blank (a ∷ b ∷ s)
  three : {a b c : ℕ} {s : Bytes} → is_space3 a b c ≡ true → Blank s → Blank (a ∷ b ∷ c ∷ s)

trim_left-Blank : (s : Bytes) → is_empty (trim_left s) ≡ true → Blank s
unfolding trim_left
trim_left-Blank [] h = end
trim_left-Blank (a ∷ []) h = elim (Bool-cases (is_space1 a)) [
  | inl e ↦ one e end
  | inr e ↦ cc (rw e at h)
]
trim_left-Blank (a ∷ b ∷ []) h = elim (Bool-cases (is_space1 a)) [
  | inl e ↦ one e (trim_left-Blank (b ∷ []) (rw e at h))
  | inr e ↦ elim (Bool-cases (is_space2 a b)) [
    | inl e₂ ↦ two e₂ end
    | inr e₂ ↦ cc (rw (e, e₂) at h)
  ]
]
trim_left-Blank (a ∷ b ∷ c ∷ s) h = elim (Bool-cases (is_space1 a)) [
  | inl e ↦ one e (trim_left-Blank (b ∷ c ∷ s) (rw e at h))
  | inr e ↦ elim (Bool-cases (is_space2 a b)) [
    | inl e₂ ↦ two e₂ (trim_left-Blank (c ∷ s) (rw (e, e₂) at h))
    | inr e₂ ↦ elim (Bool-cases (is_space3 a b c)) [
      | inl e₃ ↦ three e₃ (trim_left-Blank s (rw (e, e₂, e₃) at h))
      | inr e₃ ↦ cc (rw (e, e₂, e₃) at h)
    ]
  ]
]

trim_left-one : (a : ℕ) (s : Bytes) → is_space1 a ≡ true → trim_left (a ∷ s) ≡ trim_left s
unfolding trim_left
trim_left-one a [] e = rw e
trim_left-one a (b ∷ []) e = rw e
trim_left-one a (b ∷ c ∷ s) e = rw e

trim_left-two : (a b : ℕ) (s : Bytes) → is_space2 a b ≡ true → trim_left (a ∷ b ∷ s) ≡ trim_left s
unfolding trim_left
trim_left-two a b [] e = let no : is_space1 a ≡ false = ground (arith, e) in rw (no, e)
trim_left-two a b (c ∷ s) e = let no : is_space1 a ≡ false = ground (arith, e) in rw (no, e)

trim_left-three :
    (a b c : ℕ) (s : Bytes) → is_space3 a b c ≡ true → trim_left (a ∷ b ∷ c ∷ s) ≡ trim_left s
unfolding trim_left
trim_left-three a b c s e =
    let no₁ : is_space1 a ≡ false = ground (arith, e) in
    let no₂ : is_space2 a b ≡ false = ground (arith, e) in rw (no₁, no₂, e)

Blank-trim_left : {s : Bytes} → Blank s → trim_left s ≡ []
unfolding trim_left
Blank-trim_left end = refl
Blank-trim_left (one {a} {s} e b) = trim_left-one a s e ∙ Blank-trim_left b
Blank-trim_left (two {a} {b} {s} e t) = trim_left-two a b s e ∙ Blank-trim_left t
Blank-trim_left (three {a} {b} {c} {s} e t) = trim_left-three a b c s e ∙ Blank-trim_left t

-- What `trim_left` leaves does not begin with white space.
trim_left-trim_left : (s : Bytes) → trim_left (trim_left s) ≡ trim_left s
unfolding trim_left
trim_left-trim_left [] = refl
trim_left-trim_left (a ∷ []) = elim (Bool-cases (is_space1 a)) [
  | inl e ↦ rw e
  | inr e ↦ rw (e, trim_left, e)
]
trim_left-trim_left (a ∷ b ∷ []) = elim (Bool-cases (is_space1 a)) [
  | inl e ↦ rw e (trim_left-trim_left (b ∷ []))
  | inr e ↦ elim (Bool-cases (is_space2 a b)) [ inl e₂ ↦ rw (e, e₂) | inr e₂ ↦ simp (e, e₂) ]
]
trim_left-trim_left (a ∷ b ∷ c ∷ s) = elim (Bool-cases (is_space1 a)) [
  | inl e ↦ rw e (trim_left-trim_left (b ∷ c ∷ s))
  | inr e ↦ elim (Bool-cases (is_space2 a b)) [
    | inl e₂ ↦ rw (e, e₂) (trim_left-trim_left (c ∷ s))
    | inr e₂ ↦ elim (Bool-cases (is_space3 a b c)) [
      | inl e₃ ↦ rw (e, e₂, e₃) (trim_left-trim_left s)
      | inr e₃ ↦ simp (e, e₂, e₃)
    ]
  ]
]

trim_right-empty : (s : Bytes) → is_empty (trim_right s) ≡ is_empty (trim_left s)
unfolding trim_right
trim_right-empty [] = unfold trim_left in refl
trim_right-empty (b ∷ s) = elim (Bool-cases (is_empty (trim_left (b ∷ s)))) [
  | inl e ↦ rw e
  | inr e ↦ rw e
]

is_blank-trim_left : (s : Bytes) → is_blank s ≡ is_empty (trim_left s)
unfolding is_blank trim_space
is_blank-trim_left s =
    unfold trim_space in trim_right-empty (trim_left s) ∙ ap is_empty (trim_left-trim_left s)

-- Trimming empties a text exactly if the text is a sequence of white space characters: those that
-- TrimSpace knows, of one, two or three bytes in UTF-8.
is_blank_iff : (s : Bytes) → (is_blank s ≡ true) ↔ Blank s
is_blank_iff s = (
  λ h. trim_left-Blank s (rw is_blank-trim_left at h),
  λ b. is_blank-trim_left s ∙ ap is_empty (Blank-trim_left b),
)
