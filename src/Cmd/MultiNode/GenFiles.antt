-- ===== src/Cmd/MultiNode/GenFiles.antt =====
-- initGenFiles: the genesis with the accounts and balances, saved for each node.
use stable_coin.Prelude.{Bytes, List, [], ◌∷◌, bytes_eq, if◌then◌else◌}
use stable_coin.Prelude.Int.{ℤ, pos_part}
use stable_coin.Go.Outcome.{Outcome, ok, Done, Action, or_panic}
use stable_coin.Go.Outcome
use stable_coin.Go.Action.{◌>>=◌, calling, for_count}
use stable_coin.Go.IntMap.{get_elem?}
use stable_coin.Go.Strings.{lit}
use stable_coin.Sdk.{Coins}
use stable_coin.Cmd.Network.{Network, Balance, BankGenesis}

-- A module's part of the genesis is replaced.
abbrev with_module : Bytes → Bytes → (Bytes → Bytes) → Bytes → Bytes
with_module name value state other = if bytes_eq other name then value else state other

module _ (n : Network) where
  -- `Supply = Supply.Add(bal.Coins...)` for each balance.
  unfoldable pub add_balances : List Balance → Coins → Outcome Coins
  add_balances [] supply = ok supply
  add_balances (bal ∷ bals) supply =
      Outcome.◌>>=◌ (or_panic (n.add_coins supply bal.coins)) (add_balances bals)

  unfoldable pub fill_bank : List Balance → BankGenesis → Outcome BankGenesis
  fill_bank gen_balances bank =
      let balances = n.sanitize_genesis_balances gen_balances in
      Outcome.◌>>=◌ (add_balances balances bank.supply)
        λ supply. ok (record bank { balances = balances; supply = supply })

  unfoldable pub fill_genesis : List n.Account → List Balance → Outcome (Bytes → Bytes)
  fill_genesis gen_accounts gen_balances =
      Outcome.◌>>=◌ (or_panic (n.unmarshal_auth (n.default_genesis (lit "auth")))) λ auth.
        Outcome.◌>>=◌ (n.pack_accounts gen_accounts) λ accounts.
          Outcome.◌>>=◌ (or_panic (n.marshal_auth (n.with_accounts accounts auth))) λ auth_json.
            Outcome.◌>>=◌
              (or_panic (
                n.unmarshal_bank
                  (with_module (lit "auth") auth_json n.default_genesis (lit "bank"))))
              λ bank. Outcome.◌>>=◌ (fill_bank gen_balances bank) λ filled.
                Outcome.◌>>=◌ (or_panic (n.marshal_bank filled)) λ bank_json. ok (
                  with_module (lit "bank") bank_json
                    (with_module (lit "auth") auth_json n.default_genesis))

  unfoldable pub init_gen_files :
      Bytes → List n.Account → List Balance → List Bytes → ℤ → Action n.World Done
  init_gen_files chain_id gen_accounts gen_balances gen_files num_validators = do
    app_gen_state ← calling (fill_genesis gen_accounts gen_balances)
    json ← calling (n.marshal_app_state app_gen_state)
    for_count
        (λ i. do
          file ← calling (or_panic (get_elem? gen_files i))
          n.save_as (record { chain_id = chain_id; app_state = json }) file)
        0 (pos_part num_validators)
