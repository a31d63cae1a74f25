-- ===== src/App/Config.antt =====
-- appConfig of stbchain/app/app_config.go: the modules that the dependency injection builds, with
-- their configurations.
use stable_coin.Prelude.{ℕ, Bytes, Bool, true, List, [], ◌∷◌}
use stable_coin.Go.Strings.{lit}
use stable_coin.App.Accounts.{AccountName, AccountPermission, module_acc_perms, block_acc_addrs}
use stable_coin.App.Startup.{account_address_prefix}
use stable_coin.Cmd.Root.{app_name}
use stable_coin.App.Modules.{
  ModuleName, pre_blockers, begin_blockers, end_blockers, init_genesis_order, runtime, upgrade,
  auth, mint, distribution, slashing, evidence, staking, authz, epochs, stablecoin, gov, feegrant,
  group, consensus, bank, genutil, vesting, nft, circuit, tx, params,
}

-- runtimev1alpha1.Module, as it is filled here. A store key that differs from the module's name
-- stands beside it.
pub record RuntimeConfig : Type 0 where
  pub app_name : Bytes
  pub pre_blockers : List ModuleName
  pub begin_blockers : List ModuleName
  pub end_blockers : List ModuleName
  pub override_store_keys : List (ModuleName × Bytes)
  pub init_genesis : List ModuleName

-- authmodulev1.Module
pub record AuthConfig : Type 0 where
  pub bech32_prefix : Bytes
  pub module_account_permissions : List AccountPermission
  pub enable_unordered_transactions : Bool

-- The message in the field Config; `blank` is one without a field that is set. The period of the
-- group module is in seconds.
pub data Config : Type 0 where
  runtime_module : RuntimeConfig → Config
  auth_module : AuthConfig → Config
  bank_module : (blocked_module_accounts_override : List AccountName) → Config
  group_module : (max_execution_period max_metadata_len : ℕ) → Config
  blank : Config

-- appv1alpha1.ModuleConfig
pub record ConfiguredModule : Type 0 where
  pub name : ModuleName
  pub config : Config

abbrev configured : ModuleName → Config → ConfiguredModule
configured name config = record { name = name; config = config }

unfoldable pub runtime_config : RuntimeConfig
runtime_config = record {
  app_name = app_name;
  pre_blockers = pre_blockers;
  begin_blockers = begin_blockers;
  end_blockers = end_blockers;
  override_store_keys = (auth, lit "acc") ∷ [];
  init_genesis = init_genesis_order;
}

unfoldable pub auth_config : AuthConfig
auth_config = record {
  bech32_prefix = account_address_prefix;
  module_account_permissions = module_acc_perms;
  enable_unordered_transactions = true;
}

unfoldable pub configured_modules : List ConfiguredModule
configured_modules =
    configured runtime (runtime_module runtime_config)
    ∷ configured auth (auth_module auth_config)
    ∷ configured vesting blank
    ∷ configured bank (bank_module block_acc_addrs)
    ∷ configured staking blank
    ∷ configured slashing blank
    ∷ configured tx blank
    ∷ configured genutil blank
    ∷ configured authz blank
    ∷ configured upgrade blank
    ∷ configured distribution blank
    ∷ configured evidence blank
    ∷ configured mint blank
    ∷ configured group (group_module 1209600 255)
    ∷ configured nft blank
    ∷ configured feegrant blank
    ∷ configured gov blank
    ∷ configured consensus blank
    ∷ configured circuit blank
    ∷ configured params blank
    ∷ configured epochs blank
    ∷ configured stablecoin blank
    ∷ []
