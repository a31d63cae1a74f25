-- ===== src/App/Keepers.antt =====
-- The keepers of cosmos-sdk that the state export calls, over a store that they share. The height
-- of the context is an argument of each call. An iteration takes the function that it calls on
-- each element; a result of true stops it.
use stable_coin.Prelude.{ℕ, Bytes, Bool, List, Option}
use stable_coin.Go.Outcome.{Error, Outcome, Done, Action}

-- The fields of stakingtypes.Validator and of the other structs that the export reads or sets; the
-- others are one field.
pub record Validator : Type 0 where
  pub operator : Bytes
  pub jailed : Bool
  pub unbonding_height : ℕ
  pub other_fields : Bytes

pub record Delegation : Type 0 where
  pub validator_address : Bytes
  pub delegator_address : Bytes

-- An entry of a redelegation or of an unbonding delegation.
pub record Entry : Type 0 where
  pub creation_height : ℕ
  pub other_fields : Bytes

pub record Unbonding : Type 0 where
  pub key : Bytes
  pub entries : List Entry

pub record SigningInfo : Type 0 where
  pub start_height : ℕ
  pub other_fields : Bytes

pub record Keepers : Type 1 where
  pub Store : Type 0
  -- sdk.DecCoins with Add, and the fee pool around the community pool
  pub DecCoins : Type 0
  pub add_dec_coins : DecCoins → DecCoins → DecCoins
  pub FeePool : Type 0
  pub community_pool : FeePool → DecCoins
  pub with_community_pool : DecCoins → FeePool → FeePool
  -- the address codecs: of the interface registry's signing context and of the staking keeper
  pub signing_validator_bytes : Bytes → Outcome Bytes
  pub signing_account_bytes : Bytes → Outcome Bytes
  pub validator_bytes : Bytes → Outcome Bytes
  pub validator_text : Bytes → Outcome Bytes
  -- StakingKeeper
  pub iterate_validators : ℕ → (Validator → Action Store Bool) → Action Store Done
  pub get_all_delegations : ℕ → Store → Outcome (List Delegation)
  pub iterate_redelegations : ℕ → (Unbonding → Action Store Bool) → Action Store Done
  pub set_redelegation : ℕ → Unbonding → Action Store Done
  pub iterate_unbonding_delegations : ℕ → (Unbonding → Action Store Bool) → Action Store Done
  pub set_unbonding_delegation : ℕ → Unbonding → Action Store Done
  pub get_validator : ℕ → Bytes → Store → Outcome Validator
  pub set_validator : ℕ → Validator → Action Store Done
  pub apply_validator_set_updates : ℕ → Action Store Done
  -- the keys of a reverse iterator over the validators' prefix, its Close, and
  -- AddressFromValidatorsKey (`none` is its panic)
  pub validator_keys : ℕ → Store → Outcome (List Bytes)
  pub close_iterator : Store → Outcome Done
  pub address_from_key : Bytes → Option Bytes
  -- DistrKeeper and its hooks
  pub withdraw_validator_commission : ℕ → Bytes → Action Store DecCoins
  pub withdraw_delegation_rewards : ℕ → Bytes → Bytes → Action Store DecCoins
  pub delete_all_validator_slash_events : ℕ → Action Store Done
  pub delete_all_validator_historical_rewards : ℕ → Action Store Done
  pub get_outstanding_rewards : ℕ → Bytes → Store → Outcome DecCoins
  pub get_fee_pool : ℕ → Store → Outcome FeePool
  pub set_fee_pool : ℕ → FeePool → Action Store Done
  pub after_validator_created : ℕ → Bytes → Action Store Done
  pub before_delegation_created : ℕ → Bytes → Bytes → Action Store Done
  pub after_delegation_modified : ℕ → Bytes → Bytes → Action Store Done
  -- SlashingKeeper
  pub iterate_signing_infos : ℕ → (Bytes → SigningInfo → Action Store Bool) → Action Store Done
  pub set_signing_info : ℕ → Bytes → SigningInfo → Action Store Done
  -- the module manager, json.MarshalIndent, staking.WriteValidators and the BaseApp
  pub GenesisDoc : Type 0
  pub export_genesis_for_modules : ℕ → List Bytes → Action Store GenesisDoc
  pub marshal_indent : GenesisDoc → Outcome Bytes
  pub Validators : Type 0
  pub write_validators : ℕ → Action Store (Validators × Option Error)
  pub ConsensusParams : Type 0
  pub consensus_params : ℕ → Store → Outcome ConsensusParams
  pub last_block_height : ℕ
