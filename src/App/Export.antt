-- ===== src/App/Export.antt =====
-- stbchain/app/export.go. The store that all keepers share is the state; the height of the context
-- is an argument, and `ctx.WithBlockHeight(0)` is the argument 0.
pub mod Reset
pub mod Height
pub mod Distribution
pub mod Pool
use stable_coin.Prelude.{
  ℕ, ◌+◌, ◌%◌, ◌^◌, Bytes, Bool, true, false, not, ◌&&◌, List, [], ◌∷◌, Option, none, some, map,
  length, ltb, bytes_eq, if◌then◌else◌,
}
use stable_coin.Go.Outcome.{Error, Outcome, ok, err, panic, Done, Action, or_panic}
use stable_coin.Go.Action.{◌>>=◌, ◌>>◌, pure, calling, reads, fatal, or_die, ignoring, for_each}
use stable_coin.App.Keepers.{Keepers, Validator, Delegation, Entry, Unbonding, SigningInfo}

-- allowedAddrsMap[addr], a map built from the list.
abbrev pub is_listed : Bytes → List Bytes → Bool
is_listed addr [] = false
is_listed addr (a ∷ addrs) = if bytes_eq addr a then true else is_listed addr addrs

abbrev reset_entry : Entry → Entry
reset_entry e = record e { creation_height = 0 }

-- `red.Entries[i].CreationHeight = 0` for all i.
unfoldable pub reset_entries : Unbonding → Unbonding
reset_entries u = record u { entries = map reset_entry u.entries }

-- `validator.UnbondingHeight = 0`, and `Jailed = true` where a list is given that lacks the
-- address.
unfoldable pub reset_validator : List Bytes → Bytes → Validator → Validator
reset_validator allowed addr v =
    if ltb 0 (length allowed) && not (is_listed addr allowed)
    then record v { unbonding_height = 0; jailed = true }
    else record v { unbonding_height = 0 }

pub record ExportedApp (k : Keepers) : Type 0 where
  pub app_state : Bytes
  pub validators : k.Validators
  pub height : ℕ
  pub consensus_params : k.ConsensusParams

module _ (k : Keepers) where
  -- A callback that never stops the iteration.
  abbrev go_on : Action k.Store Done → Action k.Store Bool
  go_on call = do call; pure false

  -- The addresses of the allow list are parsed first.
  unfoldable pub check_allowed : List Bytes → Action k.Store Done
  check_allowed allowed =
      for_each (λ addr. calling (fatal (k.signing_validator_bytes addr)) >>= λ _. pure tt) allowed

  unfoldable pub withdraw_commission : ℕ → Validator → Action k.Store Bool
  withdraw_commission height val = go_on (do
    val_bz ← calling (fatal (k.validator_bytes val.operator))
    ignoring (k.withdraw_validator_commission height val_bz))

  unfoldable pub withdraw_rewards : ℕ → Delegation → Action k.Store Done
  withdraw_rewards height delegation = do
    val_addr ← calling (fatal (k.signing_validator_bytes delegation.validator_address))
    del_addr ← calling (fatal (k.signing_account_bytes delegation.delegator_address))
    ignoring (k.withdraw_delegation_rewards height del_addr val_addr)

  -- The outstanding rewards go to the community pool, and the validator is created anew.
  unfoldable pub reinitialize_validator : ℕ → Validator → Action k.Store Bool
  reinitialize_validator height val = go_on (do
    val_bz ← calling (fatal (k.validator_bytes val.operator))
    rewards ← reads (λ s. fatal (k.get_outstanding_rewards height val_bz s))
    fee_pool ← reads (λ s. fatal (k.get_fee_pool height s))
    or_die (
        k.set_fee_pool height
          (k.with_community_pool (k.add_dec_coins (k.community_pool fee_pool) rewards) fee_pool))
    or_die (k.after_validator_created height val_bz))

  unfoldable pub reinitialize_delegation : ℕ → Delegation → Action k.Store Done
  reinitialize_delegation height del = do
    val_addr ← calling (fatal (k.signing_validator_bytes del.validator_address))
    del_addr ← calling (fatal (k.signing_account_bytes del.delegator_address))
    or_die (k.before_delegation_created height del_addr val_addr)
    or_die (k.after_delegation_modified height del_addr val_addr)

  -- "Handle fee distribution state": the delegations are those from before the withdrawals, and
  -- the second half runs at height 0.
  unfoldable pub handle_distribution : ℕ → Action k.Store Done
  handle_distribution height = do
    or_die (k.iterate_validators height (withdraw_commission height))
    dels ← reads (λ s. fatal (k.get_all_delegations height s))
    for_each (withdraw_rewards height) dels
    k.delete_all_validator_slash_events height
    k.delete_all_validator_historical_rewards height
    or_die (k.iterate_validators 0 (reinitialize_validator 0))
    for_each (reinitialize_delegation 0) dels

  -- The callbacks that reset the creation heights.
  unfoldable pub reset_redelegation : ℕ → Unbonding → Action k.Store Bool
  reset_redelegation height red = go_on (or_die (k.set_redelegation height (reset_entries red)))

  unfoldable pub reset_unbonding : ℕ → Unbonding → Action k.Store Bool
  reset_unbonding height ubd =
      go_on (or_die (k.set_unbonding_delegation height (reset_entries ubd)))

  -- The body of the loop over the validators.
  unfoldable pub reset_at_key : ℕ → List Bytes → Bytes → Action k.Store Done
  reset_at_key height allowed key = do
    addr ← calling (or_panic (k.address_from_key key))
    validator ← reads (λ s. fatal (k.get_validator height addr s))
    val_addr ← calling (fatal (k.validator_text addr))
    or_die (k.set_validator height (reset_validator allowed val_addr validator))

  -- `info.StartHeight = 0`; an error of the write is dropped.
  unfoldable pub reset_signing_info : ℕ → Bytes → SigningInfo → Action k.Store Bool
  reset_signing_info height addr info =
      go_on (ignoring (k.set_signing_info height addr (record info { start_height = 0 })))

  -- The last part. Where the iterator cannot be closed the function logs the error and returns.
  unfoldable pub finish : ℕ → Outcome Done → Action k.Store Done
  finish height (ok _) = do
    or_die (k.apply_validator_set_updates height)
    or_die (k.iterate_signing_infos height (reset_signing_info height))
  finish height (err _) = pure tt
  finish height panic = calling panic

  -- "Handle staking state" and "Handle slashing state".
  unfoldable pub handle_staking : ℕ → List Bytes → Action k.Store Done
  handle_staking height allowed = do
    or_die (k.iterate_redelegations height (reset_redelegation height))
    or_die (k.iterate_unbonding_delegations height (reset_unbonding height))
    keys ← reads (k.validator_keys height)
    for_each (reset_at_key height allowed) keys
    λ s. finish height (k.close_iterator s) s

  -- prepForZeroHeightGenesis
  unfoldable pub prep_for_zero_height_genesis : ℕ → List Bytes → Action k.Store Done
  prep_for_zero_height_genesis height allowed = do
    check_allowed allowed
    handle_distribution height
    handle_staking height allowed

  -- ExportAppStateAndValidators, on the store of the new context. An int64 height wraps around.
  -- The error of WriteValidators comes beside a filled result.
  unfoldable pub export_app_state_and_validators :
      Bool → List Bytes → List Bytes → Action k.Store (ExportedApp k × Option Error)
  export_app_state_and_validators for_zero_height allowed modules = do
    if for_zero_height then prep_for_zero_height_genesis k.last_block_height allowed else pure tt
    gen_state ← k.export_genesis_for_modules k.last_block_height modules
    app_state ← calling (k.marshal_indent gen_state)
    written ← k.write_validators k.last_block_height
    params ← reads (k.consensus_params k.last_block_height)
    pure (
      record {
        app_state = app_state;
        validators = written.0;
        height = if for_zero_height then 0 else (k.last_block_height + 1) % 2 ^ 64;
        consensus_params = params;
      },
      written.1,
    )
