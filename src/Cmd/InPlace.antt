-- ===== src/Cmd/InPlace.antt =====
-- What testnet.go takes from its libraries: the options of the command, the staking, distribution
-- and slashing keepers over the staking store, and x/bank through the record Sdk.
use stable_coin.Prelude.{ℕ, Bytes, Bool, Option}
use stable_coin.Prelude.Int.{ℤ}
use stable_coin.Go.Outcome.{Outcome, Done, Action}

-- The keys of the options that are read, and the dynamic types that the code tells apart.
pub data OptionKey : Type 0 where
  new_val_addr user_pub_key new_op_addr trigger_testnet_upgrade accounts_to_fund home : OptionKey

pub data OptionValue : Type 0 where
  hex_bytes : Bytes → OptionValue
  pub_key : Bytes → OptionValue
  text : Bytes → OptionValue
  other : Bytes → OptionValue

-- stakingtypes.Validator, as the code fills it.
pub record NewValidator (Decimal : Type 0) : Type 0 where
  pub operator_address : Bytes
  pub consensus_pubkey : Bytes
  pub jailed : Bool
  pub bonded : Bool
  pub tokens : ℤ
  pub delegator_shares : Decimal
  pub moniker : Bytes
  pub rate : Decimal
  pub max_rate : Decimal
  pub max_change_rate : Decimal
  pub min_self_delegation : ℤ

pub record NewSigningInfo : Type 0 where
  pub address : Bytes
  pub start_height : ℤ
  pub tombstoned : Bool

-- An iterator over a store: ended, or at a key with what Next makes of it, which depends on the
-- store as it is then.
pub data Cursor (Store : Type 0) : Type 0 where
  ended : Cursor Store
  standing : Bytes → (Store → Cursor Store) → Cursor Store

pub record InPlace : Type 1 where
  pub Store : Type 0
  pub Decimal : Type 0
  -- math.LegacyMustNewDecFromStr (`none` is its panic), cast.ToString, codectypes.NewAnyWithValue
  pub dec : Bytes → Option Decimal
  pub to_string : OptionValue → Bytes
  pub any_of_pubkey : Bytes → Outcome Bytes
  -- the staking store: Delete, ValidatorsPowerStoreIterator, LastValidatorsIterator and Iterator
  pub delete : Bytes → Action Store Done
  pub power_keys : Store → Outcome (Cursor Store)
  pub last_validator_keys : Store → Outcome (Cursor Store)
  pub range_keys : Bytes → Bytes → Store → Outcome (Cursor Store)
  pub prefix_end : Bytes → Bytes
  pub validators_key : Bytes
  pub validator_queue_key : Bytes
  -- StakingKeeper
  pub validator_bytes : Bytes → Outcome Bytes
  pub set_validator : NewValidator Decimal → Action Store Done
  pub set_validator_by_cons_addr : NewValidator Decimal → Action Store Done
  pub set_validator_by_power_index : NewValidator Decimal → Action Store Done
  pub set_last_validator_power : Bytes → ℤ → Action Store Done
  pub after_validator_created : Bytes → Action Store Done
  pub bond_denom : Store → Outcome Bytes
  -- DistrKeeper, with rewards of no coins: the period and the reference count, the period, nothing
  pub set_historical_rewards : Bytes → ℕ → ℕ → Action Store Done
  pub set_current_rewards : Bytes → ℕ → Action Store Done
  pub set_initial_commission : Bytes → Action Store Done
  pub set_empty_outstanding_rewards : Bytes → Action Store Done
  -- SlashingKeeper and the text of a consensus address
  pub cons_address_text : Bytes → Bytes
  pub set_signing_info : Bytes → NewSigningInfo → Action Store Done
  pub last_block_height : ℤ
