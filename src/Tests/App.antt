-- ===== src/Tests/App.antt =====
-- The application's own code at concrete values.
use stable_coin.Prelude.{
  ℕ, ◌≡◌, ◌↔◌, ◌||◌, refl, true, false, [], ◌∷◌, none, some, if◌then◌else◌, bytes_eq,
}
use mathlib.Core.Path.{ap₂, sym}
use stable_coin.Prelude.Int.{pos}
use stable_coin.Go.Outcome.{ok, panic, external, ok_inj}
use stable_coin.Go.Action.{for_each}
use stable_coin.Go.Strings.{lit}
use stable_coin.App.Keepers.{Validator}
use stable_coin.App.Export.{
  ExportedApp, reset_validator, reset_at_key, export_app_state_and_validators,
}
use stable_coin.App.Export.Reset.{reset_validators}
use stable_coin.App.Export.{reinitialize_validator}
use stable_coin.App.Export.Distribution.{visit_all, with_outstanding, AreReset}
use stable_coin.App.Export.Pool.{outstanding_to_pool}
use stable_coin.Example.Rewards.{Funds, fund_keepers, both_validators, fund_laws}
use stable_coin.App.GenesisAccount.{GenesisAccount, validate_account}
use stable_coin.App.GenesisAccount.Valid.{IsValidAccount, validate_account_iff}
use stable_coin.App.Accounts.{
  get_name, get_macc_perms, blocked_addresses, name_eq, module_acc_perms, transfer, gov, ica,
  stablecoin, minter, burner, staking,
}
use stable_coin.App.Accounts.Lookup.{last_for, module_accounts_lem}
use stable_coin.Cmd.AppExport.{NewApp}
use stable_coin.App.Export.Height.{export_bad_address}
use stable_coin.App.New.{new}
use stable_coin.App.New.Keys.{strict, new-strict}
use stable_coin.Example.Build.{runtime, runtime-KeyLaws}
use stable_coin.Example.Staking.{Validators, keepers, keepers-StakingLaws, auth_types}

abbrev alice : Validator
alice = record { operator = lit "alice"; jailed = false; unbonding_height = 12; other_fields = [] }

abbrev bob : Validator
bob = record { operator = lit "bob"; jailed = false; unbonding_height = 30; other_fields = [] }

abbrev two_validators : Validators
two_validators a =
    if bytes_eq a (lit "alice")
    then some alice
    else if bytes_eq a (lit "bob")
    then some bob
    else none

abbrev reset_store : Validators
reset_store =
    (for_each (reset_at_key keepers 41 (lit "alice" ∷ [])) (lit "bob" ∷ lit "alice" ∷ [])
      two_validators).1

reset_validators_example :
    keepers.get_validator 41 (lit "bob") reset_store
    ≡ ok (record bob { jailed = true; unbonding_height = 0 })
unfolding for_each reset_at_key reset_validator
reset_validators_example =
    reset_validators keepers keepers-StakingLaws 41 (lit "alice" ∷ []) (lit "bob") (lit "bob") refl
      (lit "bob" ∷ lit "alice" ∷ []) two_validators reset_store bob refl refl

abbrev apps : NewApp keepers
apps = record { runtime = runtime; store_of = λ app. two_validators }

abbrev exported : ExportedApp keepers
exported = record { app_state = lit "{}"; validators = 2; height = 42; consensus_params = 7 }

export_bad_address_example :
    export_app_state_and_validators keepers true (lit "alice" ∷ [] ∷ []) [] two_validators
    ≡ (panic, two_validators)
export_bad_address_example =
    export_bad_address keepers [] (external 1) (lit "alice" ∷ []) [] [] two_validators refl

abbrev grant : GenesisAccount auth_types
grant = record {
  base_account = lit "alice";
  original_vesting = record { denom = lit "stake"; amount = pos 5 } ∷ [];
  delegated_free = [];
  delegated_vesting = [];
  start_time = pos 10;
  end_time = pos 10;
  module_name = [];
  module_permissions = [];
}

validate_account_iff_example :
    (validate_account auth_types grant ≡ ok tt) ↔ IsValidAccount auth_types grant
validate_account_iff_example = validate_account_iff auth_types grant

module_accounts_lem_example :
    (get_name transfer get_macc_perms ≡ last_for transfer module_acc_perms none)
    × (name_eq transfer stablecoin ≡ true
        → get_name transfer get_macc_perms ≡ some (minter ∷ burner ∷ staking ∷ []))
    × ((get_name transfer blocked_addresses ≡ none) ↔ (
        (name_eq transfer gov
          || name_eq transfer transfer
          || name_eq transfer ica
          || name_eq transfer stablecoin)
        ≡ true))
module_accounts_lem_example = module_accounts_lem transfer

new-strict_example : new (strict runtime) true (lit "opts") [] ≡ new runtime true (lit "opts") []
new-strict_example = new-strict runtime runtime-KeyLaws true (lit "opts") []

-- A pool of 100, with rewards of 5 and 7 outstanding.
abbrev owed : Funds
owed = record { pool = 100; rewards = λ a. if bytes_eq a (lit "alice") then 5 else 7 }

abbrev paid : Funds
paid = (fund_keepers.iterate_validators 0 (reinitialize_validator fund_keepers 0) owed).1

collected : (visit_all (reinitialize_validator fund_keepers 0) both_validators owed).0 ≡ ok tt
unfolding visit_all reinitialize_validator
collected = refl

outstanding_to_pool_example :
    (p' : ℕ) × (fund_keepers.get_fee_pool 0 paid ≡ ok p')
    × (with_outstanding fund_keepers owed both_validators 100 ≡ ok p')
    × AreReset fund_keepers 0 paid both_validators
unfolding visit_all reinitialize_validator
outstanding_to_pool_example =
    outstanding_to_pool fund_keepers fund_laws owed paid 100
      (λ a e. (λ b f. ap₂ bytes_eq (sym (ok_inj e)) (sym (ok_inj f)), tt), (λ a e. tt, tt)) refl
      refl
