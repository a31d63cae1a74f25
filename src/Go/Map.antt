-- ===== src/Go/Map.antt =====
-- Maps keyed by texts, and `for key, value := range m` loops that fill another map. A list holds
-- the entries in the order in which a loop runs through them, which Go leaves open.
use mathlib.Core.Path.{subst}
use mathlib.Core.Quot
use mathlib.Core.Quot.{Quot}
use stable_coin.Go.Outcome.{Done}
use stable_coin.Prelude.{
  ◌≡◌, refl, ap, ◌∙◌, sym, Option, none, some, List, [], ◌∷◌, Bytes, Bool, bytes_eq, bytes_eq→eq,
  bytes_eq_refl, Bool-cases, inl, inr, true, false, if◌then◌else◌, arith,
}

abbrev pub TextMap : Type 0 → Type 0
TextMap A = List (Bytes × A)

module _ {A : Type 0} where
  abbrev pub find_key : Bytes → TextMap A → Option A
  find_key key [] = none
  find_key key (e ∷ m) = if bytes_eq key e.0 then some e.1 else find_key key m

  -- `m[key] = value`
  abbrev pub set_key : Bytes → A → TextMap A → TextMap A
  set_key key value [] = (key, value) ∷ []
  set_key key value (e ∷ m) = if bytes_eq key e.0 then (key, value) ∷ m else e ∷ set_key key value m

  -- Two lists are the same map.
  abbrev pub SameEntries : TextMap A → TextMap A → Type 0
  SameEntries m n = (key : Bytes) → find_key key m ≡ find_key key n

  -- A loop runs through every key once.
  abbrev pub HasUniqueKeys : TextMap A → Type 0
  HasUniqueKeys [] = Done
  HasUniqueKeys (e ∷ m) = (find_key e.0 m ≡ none) × HasUniqueKeys m

-- The map itself, without an order.
abbrev pub Entries : Type 0 → Type 0
Entries A = Quot (SameEntries {A = A})

abbrev pub entries : {A : Type 0} → TextMap A → Entries A
entries m = Quot.mk m

-- `for key, value := range m { result[key] = f(key, value) }`
unfoldable pub fill : {A B : Type 0} → (Bytes → A → B) → TextMap A → TextMap B → TextMap B
fill f [] result = result
fill f (e ∷ m) result = fill f m (set_key e.0 (f e.0 e.1) result)

pub bytes_eq_sym : (a b : Bytes) → bytes_eq a b ≡ true → bytes_eq b a ≡ true
bytes_eq_sym a b h = subst (λ x. bytes_eq x a ≡ true) (bytes_eq→eq a b h) (bytes_eq_refl a)

pub bytes_ne_sym : (a b : Bytes) → bytes_eq a b ≡ false → bytes_eq b a ≡ false
bytes_ne_sym a b h = elim (Bool-cases (bytes_eq b a)) [
  | inl same ↦ cc (h, bytes_eq_sym b a same)
  | inr differs ↦ differs
]

find_key-set_key :
    {A : Type 0} (key at : Bytes) (value : A) (m : TextMap A)
    → find_key key (set_key at value m) ≡ (if bytes_eq key at then some value else find_key key m)
find_key-set_key key at value [] = refl
find_key-set_key key at value (e ∷ m) = elim (Bool-cases (bytes_eq at e.0)) [
  | inl same ↦
      let eq : bytes_eq key at ≡ bytes_eq key e.0 = ap (bytes_eq key) (bytes_eq→eq at e.0 same) in
      rw same (ground (arith, eq))
  | inr differs ↦
      let apart : bytes_eq key at ≡ true → bytes_eq key e.0 ≡ false =
        λ h. ap (λ x. bytes_eq x e.0) (bytes_eq→eq key at h) ∙ differs in
      rw differs (ground (arith, apart, find_key-set_key key at value m))
]

-- What the loop leaves at a key: its own entry where it met the key, else what was there.
abbrev filled : {A B : Type 0} → (A → B) → Option A → Option B → Option B
filled f none old = old
filled f (some a) old = some (f a)

module _ {A B : Type 0} (f : Bytes → A → B) where
  find_key-fill :
      (key : Bytes) (m : TextMap A) (result : TextMap B)
      → HasUniqueKeys m
      → find_key key (fill f m result) ≡ filled (f key) (find_key key m) (find_key key result)
  unfolding fill
  find_key-fill key [] result unique = refl
  find_key-fill key (e ∷ m) result (once, unique) =
      let met = set_key e.0 (f e.0 e.1) result in
      let later = find_key-fill key m met unique in
      let choose : Bool → Option B = λ b. if b then some (f e.0 e.1) else find_key key result in
      let here = find_key-set_key key e.0 (f e.0 e.1) result in
      elim (Bool-cases (bytes_eq key e.0)) [
        | inl same ↦
            let eq = bytes_eq→eq key e.0 same in
            let last : find_key key m ≡ none = ap (λ x. find_key x m) eq ∙ once in
            rw same (
              later
              ∙ ap (λ x. filled (f key) x (find_key key met)) last
              ∙ here
              ∙ ap choose same
              ∙ ap (λ x. some (f x e.1)) (sym eq))
        | inr differs ↦
            rw differs (later ∙ ap (filled (f key) (find_key key m)) (here ∙ ap choose differs))
      ]

  -- Whatever order the loop takes, it leaves the same map.
  pub fill-entries :
      (m n : TextMap A) (result : TextMap B)
      → HasUniqueKeys m
      → HasUniqueKeys n
      → SameEntries m n
      → entries (fill f m result) ≡ entries (fill f n result)
  fill-entries m n result hm hn same = Quot.sound (λ key.
      find_key-fill key m result hm
      ∙ ap (λ x. filled (f key) x (find_key key result)) (same key)
      ∙ sym (find_key-fill key n result hn))
