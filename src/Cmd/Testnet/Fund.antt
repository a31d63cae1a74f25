-- ===== src/Cmd/Testnet/Fund.antt =====
-- The accounts that are funded, and the empty list of them.
use stable_coin.Prelude.{
  ℕ, zero, suc, ◌≡◌, ◌≢◌, refl, sym, ap, ◌∙◌, Bytes, List, [], ◌∷◌, length, bytes_eq, if◌then◌else◌,
  arith,
}
use stable_coin.Prelude.Int.{int_laws, ℤ, pos, ◌+ℤ◌}
use stable_coin.Go.Outcome.{
  Error, ok, err, or_panic, raise_if, after-eq-ok, reading-eq-ok, or_panic-eq-ok, ok_inj,
}
use stable_coin.Go.Action.{for_each, fatal, fatal-eq-ok}
use stable_coin.Go.Strings.Split.{split}
use stable_coin.Sdk.{Sdk, Coins, CoinLaws, BankLaws, amount_of}
use stable_coin.Cmd.InPlace.{
  InPlace, OptionKey, OptionValue, new_val_addr, user_pub_key, new_op_addr, trigger_testnet_upgrade,
  accounts_to_fund, home,
}
use stable_coin.Cmd.Testnet.{
  as_hex_bytes, as_pub_key, as_text, ValArgs, TestState, mint_name, on_staking, replace_validators,
  fund_account, get_command_args, init_app_for_testnet, new_testnet_app,
}

abbrev pub times : ℕ → ℤ → ℤ
times zero a = pos 0
times (suc n) a = a +ℤ times n a

+ℤ_zero : (a : ℤ) → a +ℤ pos 0 ≡ a
+ℤ_zero a = grind int_laws

module _ (k : Sdk) (laws : BankLaws k) where
  supply-fund_account :
      (minter : Bytes) (coins : Coins) (account d : Bytes) (b b' : k.Bank)
      → fund_account k minter coins account b ≡ (ok tt, b')
      → k.supply_of d b' ≡ k.supply_of d b +ℤ amount_of d coins
  unfolding fund_account
  supply-fund_account minter coins account d b b' e =
      let (_, b₁, minted, e₁) = after-eq-ok (k.mint_coins minter coins b) _ e in
      let (to, _, sent) = reading-eq-ok (k.string_to_bytes account) b₁ _ e₁ in
      laws.supply-send_out minter to coins b₁ b' d sent
      ∙ laws.supply-mint minter coins b b₁ d minted

  supply-fund :
      (minter : Bytes) (coins : Coins) (accounts : List Bytes) (d : Bytes) (b b' : k.Bank)
      → for_each (fund_account k minter coins) accounts b ≡ (ok tt, b')
      → k.supply_of d b' ≡ k.supply_of d b +ℤ times (length accounts) (amount_of d coins)
  unfolding for_each
  supply-fund minter coins [] d b b' e =
      let same : k.supply_of d b ≡ k.supply_of d b' = ap (λ r. k.supply_of d r.1) e in
      grind (int_laws, same)
  supply-fund minter coins (account ∷ accounts) d b b' e =
      let (_, b₁, one, rest) =
        after-eq-ok (fund_account k minter coins account b)
          (λ _. for_each (fund_account k minter coins) accounts) e in
      let first = supply-fund_account minter coins account d b b₁ one in
      let more = supply-fund minter coins accounts d b₁ b' rest in grind (int_laws, first, more)

  -- Where the change to a testnet returns, the supply of the bond denom that the staking keeper
  -- names has grown by 1000000000 for each account to fund, and that of no other denom has
  -- changed. The bank and the coins keep their laws.
  pub supply-init_app :
      (n : InPlace) (coin_laws : CoinLaws k) (args : ValArgs) (w w' : TestState k n)
      → init_app_for_testnet k n args w ≡ (ok tt, w')
      → (denom : Bytes) × (n.bond_denom w'.staking ≡ ok denom)
        × ((d : Bytes)
            → k.supply_of d w'.bank
              ≡ k.supply_of d w.bank
                +ℤ times
                    (length args.accounts_to_fund)
                    (if bytes_eq denom d then pos 1000000000 else pos 0))
  unfolding init_app_for_testnet
  supply-init_app n coin_laws args w w' e =
      let (_, w₁, staked, e₁) = after-eq-ok (on_staking k n (replace_validators n args) w) _ e in
      let (denom, named, e₂) = reading-eq-ok (n.bond_denom w₁.staking) w₁ _ e₁ in
      let (coin, made, e₃) = reading-eq-ok (or_panic (k.new_coin denom (pos 1000000000))) w₁ _ e₂ in
      let (coins, sorted, e₄) = reading-eq-ok (or_panic (k.new_coins (coin ∷ []))) w₁ _ e₃ in
      let (is_denom, is_amount) =
        coin_laws.new_coin_lem denom (pos 1000000000) coin (or_panic-eq-ok _ made) in
      let alone : coins ≡ coin ∷ [] =
        coin_laws.new_coins_lem coin coins (rw is_amount (omega arith)) (or_panic-eq-ok _ sorted) in
      let kept : w₁.bank ≡ w.bank = sym (ap (λ r. r.1.bank) staked) in
      let store : w₁.staking ≡ w'.staking = ap (λ r. r.1.staking) e₄ in
      (
        denom,
        ap n.bond_denom (sym store) ∙ named,
        λ d.
            supply-fund mint_name coins args.accounts_to_fund d w₁.bank w'.bank
              (ap (λ r. (r.0, r.1.bank)) e₄)
            ∙ rw
                (
                  kept,
                  alone,
                  is_denom,
                  is_amount,
                  +ℤ_zero (if bytes_eq denom d then pos 1000000000 else pos 0),
                )
                refl,
      )

empty_account :
    (k : Sdk) (minter : Bytes) (coins : Coins) (e : Error) (b b' : k.Bank)
    → k.string_to_bytes [] ≡ err e
    → for_each (fund_account k minter coins) ([] ∷ []) b ≢ (ok tt, b')
unfolding for_each fund_account
empty_account k minter coins e b b' bad all =
    let (_, b₁, one, rest) = after-eq-ok (fund_account k minter coins [] b) _ all in
    let (_, b₂, minted, e₁) = after-eq-ok (k.mint_coins minter coins b) _ one in
    let (to, known, sent) = reading-eq-ok (k.string_to_bytes []) b₂ _ e₁ in cc

accounts-get_command_args :
    (n : InPlace) (opts : OptionKey → OptionValue) (args : ValArgs)
    → get_command_args n opts tt ≡ (ok args, tt)
    → args.accounts_to_fund ≡ split 44 (n.to_string (opts accounts_to_fund))
unfolding get_command_args
accounts-get_command_args n opts args e =
    let (_, _, e₁) = reading-eq-ok (as_hex_bytes (opts new_val_addr) _) tt _ e in
    let (_, _, e₂) = reading-eq-ok (as_pub_key (opts user_pub_key) _) tt _ e₁ in
    let (_, _, e₃) = reading-eq-ok (as_text (opts new_op_addr) _) tt _ e₂ in
    let (_, _, e₄) = reading-eq-ok (as_text (opts trigger_testnet_upgrade) _) tt _ e₃ in
    let (_, _, e₅) = reading-eq-ok (raise_if (bytes_eq (n.to_string (opts home)) []) _) tt _ e₄ in
    ap (λ a. a.accounts_to_fund) (sym (ok_inj (ap (λ r. r.0) e₅)))

-- With an empty list of accounts to fund, which is the default of the flag, the in-place testnet
-- never starts: the list is read as one empty account, whose address the codec does not accept.
pub unfunded_exit :
    (k : Sdk) (n : InPlace) (opts : OptionKey → OptionValue) (e : Error) (w w' : TestState k n)
    → n.to_string (opts accounts_to_fund) ≡ []
    → k.string_to_bytes [] ≡ err e
    → new_testnet_app k n opts w ≢ (ok tt, w')
unfolding new_testnet_app init_app_for_testnet split
unfunded_exit k n opts e w w' empty bad done =
    let (args, read, all) = reading-eq-ok (fatal (get_command_args n opts tt).0) w _ done in
    let listed = accounts-get_command_args n opts args (ap (λ r. (r, tt)) (fatal-eq-ok _ read)) in
    let (_, w₁, staked, e₁) = after-eq-ok (on_staking k n (replace_validators n args) w) _ all in
    let (denom, _, e₂) = reading-eq-ok (n.bond_denom w₁.staking) w₁ _ e₁ in
    let (coin, _, e₃) = reading-eq-ok (or_panic (k.new_coin denom (pos 1000000000))) w₁ _ e₂ in
    let (coins, _, e₄) = reading-eq-ok (or_panic (k.new_coins (coin ∷ []))) w₁ _ e₃ in
    let one : args.accounts_to_fund ≡ [] ∷ [] = listed ∙ ap (split 44) empty in
    let funded : for_each (fund_account k mint_name coins) args.accounts_to_fund w₁.bank
        ≡ (ok tt, w'.bank) =
      ap (λ r. (r.0, r.1.bank)) e₄ in
    empty_account k mint_name coins e w₁.bank w'.bank bad
      (sym (ap (λ l. for_each (fund_account k mint_name coins) l w₁.bank) one) ∙ funded)
