-- ===== src/Cmd/MultiNode/Supply.antt =====
-- The supply of the genesis file.
use stable_coin.Prelude.{◌≡◌, refl, sym, ap, ◌∙◌, Bytes, false, List, [], ◌∷◌, some, bytes_eq}
use stable_coin.Go.Outcome.{ok, or_panic, >>=-eq-ok, or_panic-eq-ok, ok_inj}
use stable_coin.Go.Strings.{lit}
use stable_coin.Prelude.Int.{int_laws, ℤ, pos, ◌+ℤ◌}
use stable_coin.Sdk.{Coins, amount_of}
use stable_coin.Cmd.Network.{Network, Balance, BankGenesis}
use stable_coin.Cmd.MultiNode.GenFiles.{add_balances, fill_bank, fill_genesis}

-- Where sdk.Coins.Add does not panic, it adds the amounts of each denom.
pub record AddLaws (n : Network) : Type 0 where
  pub amount_of-add :
      (d : Bytes) (a b c : Coins)
      → n.add_coins a b ≡ some c
      → amount_of d c ≡ amount_of d a +ℤ amount_of d b

-- The coins of all accounts in a denom.
abbrev pub total : Bytes → List Balance → ℤ
total d [] = pos 0
total d (bal ∷ bals) = amount_of d bal.coins +ℤ total d bals

module _ (n : Network) (laws : AddLaws n) (d : Bytes) where
  amount_of-add_balances :
      (bals : List Balance) (supply sum : Coins)
      → add_balances n bals supply ≡ ok sum
      → amount_of d sum ≡ amount_of d supply +ℤ total d bals
  unfolding add_balances
  amount_of-add_balances [] supply sum e = let same = ok_inj e in grind int_laws
  amount_of-add_balances (bal ∷ bals) supply sum e =
      let (next, added, rest) =
        >>=-eq-ok (or_panic (n.add_coins supply bal.coins)) (add_balances n bals) e in
      let more = amount_of-add_balances bals next sum rest in
      let one = laws.amount_of-add d supply bal.coins next (or_panic-eq-ok _ added) in
      grind (int_laws, more, one)

  genesis_supply :
      (gen_balances : List Balance) (bank filled : BankGenesis)
      → fill_bank n gen_balances bank ≡ ok filled
      → (filled.balances ≡ n.sanitize_genesis_balances gen_balances)
        × (amount_of d filled.supply ≡ amount_of d bank.supply +ℤ total d filled.balances)
  unfolding fill_bank
  genesis_supply gen_balances bank filled e =
      let balances = n.sanitize_genesis_balances gen_balances in
      let (sum, added, last) = >>=-eq-ok (add_balances n balances bank.supply) _ e in
      let made = ok_inj last in
      let listed : balances ≡ filled.balances = ap (λ x. x.balances) made in
      (
        sym listed,
        ap (λ x. amount_of d x.supply) (sym made)
            ∙ amount_of-add_balances balances bank.supply sum added
            ∙ ap (λ x. amount_of d bank.supply +ℤ total d x) listed,
      )

  -- Where the genesis state is made, the part of the bank is the encoding of a state that lists
  -- the sanitized balances and announces in every denom the default supply and the sum of these
  -- balances; the parts of all modules but auth and bank are the default ones. The addition of
  -- coins keeps its law.
  pub fill_genesis-supply :
      (gen_accounts : List n.Account) (gen_balances : List Balance) (state : Bytes → Bytes)
      → fill_genesis n gen_accounts gen_balances ≡ ok state
      → (before : BankGenesis) × (after : BankGenesis) × (n.unmarshal_bank
            (n.default_genesis (lit "bank"))
          ≡ some before)
        × (n.marshal_bank after ≡ some (state (lit "bank")))
        × (after.balances ≡ n.sanitize_genesis_balances gen_balances)
        × (amount_of d after.supply ≡ amount_of d before.supply +ℤ total d after.balances)
        × ((other : Bytes)
            → bytes_eq other (lit "auth") ≡ false
            → bytes_eq other (lit "bank") ≡ false
            → state other ≡ n.default_genesis other)
  unfolding fill_genesis
  fill_genesis-supply gen_accounts gen_balances state e =
      let (auth, e₁, r₁) =
        >>=-eq-ok (or_panic (n.unmarshal_auth (n.default_genesis (lit "auth")))) _ e in
      let (accounts, e₂, r₂) = >>=-eq-ok (n.pack_accounts gen_accounts) _ r₁ in
      let (auth_json, e₃, r₃) =
        >>=-eq-ok (or_panic (n.marshal_auth (n.with_accounts accounts auth))) _ r₂ in
      let (bank, e₄, r₄) =
        >>=-eq-ok (or_panic (n.unmarshal_bank (n.default_genesis (lit "bank")))) _ r₃ in
      let (filled, e₅, r₅) = >>=-eq-ok (fill_bank n gen_balances bank) _ r₄ in
      let (bank_json, e₆, r₆) = >>=-eq-ok (or_panic (n.marshal_bank filled)) _ r₅ in
      let made = ok_inj r₆ in
      let (listed, supply) = genesis_supply gen_balances bank filled e₅ in
      (
        bank,
        filled,
        or_panic-eq-ok _ e₄,
        or_panic-eq-ok _ e₆ ∙ ap (λ s. some (s (lit "bank"))) made,
        listed,
        supply,
        λ other a b. ap (λ s. s other) (sym made) ∙ rw (a, b) refl,
      )
