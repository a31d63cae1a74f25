-- ===== src/Cmd/Testnet.antt =====
-- stbchain/cmd/stbchaind/cmd/testnet.go: the in-place testnet. An error that `handleErr` prints
-- before the process exits with status 1 is an `err`.
pub mod Clear
pub mod Fund
use stable_coin.Prelude.{
  ℕ, Bytes, Bool, true, false, List, [], ◌∷◌, ◌++◌, Option, none, some, bytes_eq, if◌then◌else◌,
}
use stable_coin.Prelude.Int.{ℤ, pos, ◌-ℤ◌}
use stable_coin.Go.Outcome.{
  Outcome, ok, err, panic, message, Done, Action, after, raise_if, or_panic,
}
use stable_coin.Go.Outcome
use stable_coin.Go.Action.{◌>>=◌, ◌>>◌, pure, calling, reads, ignoring, fatal, for_each}
use stable_coin.Go.Strings.{lit}
use stable_coin.Go.Strings.Split.{split}
use stable_coin.Sdk.{Sdk, Coins}
use stable_coin.Cmd.InPlace.{
  InPlace, Cursor, ended, standing, NewValidator, NewSigningInfo, OptionKey, OptionValue, hex_bytes,
  pub_key, text, other, new_val_addr, user_pub_key, new_op_addr, trigger_testnet_upgrade,
  accounts_to_fund, home,
}

abbrev val_voting_power : ℤ
val_voting_power = pos 900000000000000

pub record ValArgs : Type 0 where
  pub new_val_addr : Bytes
  pub new_operator_address : Bytes
  pub new_val_pub_key : Bytes
  pub accounts_to_fund : List Bytes
  pub upgrade_to_trigger : Bytes
  pub home_dir : Bytes

-- The type assertions.
abbrev pub as_hex_bytes : OptionValue → Bytes → Outcome Bytes
as_hex_bytes (hex_bytes b) problem = ok b
as_hex_bytes v problem = err (message problem)

abbrev pub as_pub_key : OptionValue → Bytes → Outcome Bytes
as_pub_key (pub_key b) problem = ok b
as_pub_key v problem = err (message problem)

abbrev pub as_text : OptionValue → Bytes → Outcome Bytes
as_text (text b) problem = ok b
as_text v problem = err (message problem)

pub record TestState (k : Sdk) (n : InPlace) : Type 0 where
  pub staking : n.Store
  pub bank : k.Bank

module _ (n : InPlace) where
  -- getCommandArgs. An error comes without the arguments, which the caller does not look at then.
  unfoldable pub get_command_args : (OptionKey → OptionValue) → Action (Unit {0}) ValArgs
  get_command_args opts = do
    val_addr ←
        calling (as_hex_bytes (opts new_val_addr) (lit "newValAddr is not of type bytes.HexBytes"))
    new_pub_key ←
        calling (as_pub_key (opts user_pub_key) (lit "newValPubKey is not of type crypto.PubKey"))
    operator ← calling (as_text (opts new_op_addr) (lit "newOperatorAddress is not of type string"))
    upgrade ←
        calling
          (as_text (opts trigger_testnet_upgrade) (lit "upgradeToTrigger is not of type string"))
    calling (raise_if (bytes_eq (n.to_string (opts home)) []) (message (lit "invalid home dir")))
    pure (record {
      new_val_addr = val_addr;
      new_operator_address = operator;
      new_val_pub_key = new_pub_key;
      accounts_to_fund = [] ++ split 44 (n.to_string (opts accounts_to_fund));
      upgrade_to_trigger = upgrade;
      home_dir = n.to_string (opts home);
    })

  -- Create Validator struct for our new validator.
  unfoldable pub new_validator : ValArgs → Bytes → Outcome (NewValidator n.Decimal)
  new_validator args pubkey = Outcome.◌>>=◌ (or_panic (n.dec (lit "10000000"))) λ shares.
      Outcome.◌>>=◌ (or_panic (n.dec (lit "0.05"))) λ rate.
        Outcome.◌>>=◌ (or_panic (n.dec (lit "0.1"))) λ max_rate. ok (record {
          operator_address = args.new_operator_address;
          consensus_pubkey = pubkey;
          jailed = false;
          bonded = true;
          tokens = val_voting_power;
          delegator_shares = shares;
          moniker = lit "Testnet Validator";
          rate = rate;
          max_rate = max_rate;
          max_change_rate = rate;
          min_self_delegation = pos 1;
        })

  -- `for ; iterator.Valid(); iterator.Next() { stakingStore.Delete(iterator.Key()) }`
  unfoldable pub delete_all : Cursor n.Store → Action n.Store Done
  delete_all ended s = (ok tt, s)
  delete_all (standing key next) s = after (n.delete key s) (λ _ s'. delete_all (next s') s')

  -- One removal: the iterator is opened, and the loop deletes while it is open.
  unfoldable pub delete_keys : (n.Store → Outcome (Cursor n.Store)) → Action n.Store Done
  delete_keys iterator = do cursor ← reads iterator; delete_all cursor

  -- The validators are removed from the power store, the last validators, the validators' prefix
  -- and the unbonding queue.
  unfoldable pub remove_validators : Action n.Store Done
  remove_validators = do
    delete_keys n.power_keys
    delete_keys n.last_validator_keys
    delete_keys (n.range_keys n.validators_key (n.prefix_end n.validators_key))
    delete_keys (n.range_keys n.validator_queue_key (n.prefix_end n.validator_queue_key))

  unfoldable pub add_validator : Bytes → NewValidator n.Decimal → Action n.Store Done
  add_validator validator new_val = do
    n.set_validator new_val
    n.set_validator_by_cons_addr new_val
    n.set_validator_by_power_index new_val
    n.set_last_validator_power validator (pos 0)
    n.after_validator_created validator

  -- The distribution records and the signing info, whose error is dropped.
  unfoldable pub initialize_records : ValArgs → Bytes → Action n.Store Done
  initialize_records args validator = do
    n.set_historical_rewards validator 0 1
    n.set_current_rewards validator 1
    n.set_initial_commission validator
    n.set_empty_outstanding_rewards validator
    ignoring (
        n.set_signing_info args.new_val_addr (record {
          address = n.cons_address_text args.new_val_addr;
          start_height = n.last_block_height -ℤ pos 1;
          tombstoned = false;
        }))

  -- STAKING, DISTRIBUTION and SLASHING of initAppForTestnet.
  unfoldable pub replace_validators : ValArgs → Action n.Store Done
  replace_validators args = do
    pubkey ← calling (n.any_of_pubkey args.new_val_pub_key)
    new_val ← calling (new_validator args pubkey)
    validator ← calling (n.validator_bytes new_val.operator_address)
    remove_validators
    add_validator validator new_val
    initialize_records args validator

abbrev pub mint_name : Bytes
mint_name = lit "mint"

module _ (k : Sdk) where
  -- The body of the loop over the accounts.
  unfoldable pub fund_account : Bytes → Coins → Bytes → Action k.Bank Done
  fund_account minter default_coins account_str = do
    k.mint_coins minter default_coins
    account ← calling (k.string_to_bytes account_str)
    k.send_module_to_account minter account default_coins

  module _ (n : InPlace) where
    abbrev pub on_staking : {A : Type 0} → Action n.Store A → Action (TestState k n) A
    on_staking f w = let (r, s) = f w.staking in (r, record w { staking = s })

    abbrev pub on_bank : {A : Type 0} → Action k.Bank A → Action (TestState k n) A
    on_bank f w = let (r, b) = f w.bank in (r, record w { bank = b })

    -- initAppForTestnet
    unfoldable pub init_app_for_testnet : ValArgs → Action (TestState k n) Done
    init_app_for_testnet args = do
      on_staking (replace_validators n args)
      bond_denom ← reads (λ w. n.bond_denom w.staking)
      coin ← calling (or_panic (k.new_coin bond_denom (pos 1000000000)))
      default_coins ← calling (or_panic (k.new_coins (coin ∷ [])))
      on_bank (for_each (fund_account mint_name default_coins) args.accounts_to_fund)

    -- newTestnetApp, on the app that newApp made: an error of the arguments is a panic.
    unfoldable pub new_testnet_app : (OptionKey → OptionValue) → Action (TestState k n) Done
    new_testnet_app opts = do
      args ← calling (fatal (get_command_args n opts tt).0)
      init_app_for_testnet args
