-- ===== src/Example/Staking.antt =====
-- Small models of the keepers that the state export calls and of x/auth's checks, on which the
-- tests run.
use stable_coin.Prelude.{
  ℕ, ◌+◌, ◌≡◌, sym, ap, ◌∙◌, Bytes, Bool, true, false, List, [], ◌∷◌, Option, none, some, bytes_eq,
  bytes_eq→eq, bytes_eq_refl, if◌then◌else◌, Bool-cases, inl, inr,
}
use stable_coin.Go.Outcome.{Outcome, ok, err, Done, Action, external, not_found, ok_inj}
use stable_coin.App.Keepers.{Keepers, Validator}
use stable_coin.App.Export.Reset.{StakingLaws}
use stable_coin.App.GenesisAccount.{AuthTypes}

abbrev pub Validators : Type 0
Validators = Bytes → Option Validator

-- A validator is filed under its operator.
abbrev filed_under : Bytes → Option Validator → Outcome Validator
filed_under a none = err not_found
filed_under a (some v) = if bytes_eq v.operator a then ok v else err not_found

abbrev get_validator : ℕ → Bytes → Validators → Outcome Validator
get_validator h a s = filed_under a (s a)

abbrev file : Validator → Validators → Validators
file v s a = if bytes_eq v.operator a then some v else s a

abbrev set_validator : ℕ → Validator → Action Validators Done
set_validator h v s = (ok tt, file v s)

abbrev address : Bytes → Outcome Bytes
address s = if bytes_eq s [] then err (external 1) else ok s

abbrev idle : {A : Type 0} → A → Action Validators A
idle a s = (ok a, s)

abbrev pub keepers : Keepers
keepers = record {
  Store = Validators;
  DecCoins = ℕ;
  add_dec_coins = λ a b. a + b;
  FeePool = ℕ;
  community_pool = λ pool. pool;
  with_community_pool = λ coins pool. coins;
  signing_validator_bytes = address;
  signing_account_bytes = address;
  validator_bytes = λ s. ok s;
  validator_text = λ s. ok s;
  iterate_validators = λ h f. idle tt;
  get_all_delegations = λ h s. ok [];
  iterate_redelegations = λ h f. idle tt;
  set_redelegation = λ h u. idle tt;
  iterate_unbonding_delegations = λ h f. idle tt;
  set_unbonding_delegation = λ h u. idle tt;
  get_validator = get_validator;
  set_validator = set_validator;
  apply_validator_set_updates = λ h. idle tt;
  validator_keys = λ h s. ok [];
  close_iterator = λ s. ok tt;
  address_from_key = λ key. some key;
  withdraw_validator_commission = λ h a. idle 0;
  withdraw_delegation_rewards = λ h a b. idle 0;
  delete_all_validator_slash_events = λ h. idle tt;
  delete_all_validator_historical_rewards = λ h. idle tt;
  get_outstanding_rewards = λ h a s. ok 0;
  get_fee_pool = λ h s. ok 0;
  set_fee_pool = λ h pool. idle tt;
  after_validator_created = λ h a. idle tt;
  before_delegation_created = λ h a b. idle tt;
  after_delegation_modified = λ h a b. idle tt;
  iterate_signing_infos = λ h f. idle tt;
  set_signing_info = λ h a info. idle tt;
  GenesisDoc = Bytes;
  export_genesis_for_modules = λ h modules. idle (123 ∷ 125 ∷ []);
  marshal_indent = λ doc. ok doc;
  Validators = ℕ;
  write_validators = λ h. idle (2, none);
  ConsensusParams = ℕ;
  consensus_params = λ h s. ok 7;
  last_block_height = 41;
}

filed_under-eq-ok :
    (a : Bytes) (o : Option Validator) (v : Validator) → filed_under a o ≡ ok v → v.operator ≡ a
filed_under-eq-ok a none v h = cc
filed_under-eq-ok a (some w) v h = elim (Bool-cases (bytes_eq w.operator a)) [
  | inl same ↦
      let eq : w ≡ v = ok_inj (rw same at h) in
      sym (ap (λ x. x.operator) eq) ∙ bytes_eq→eq w.operator a same
  | inr other ↦ absurd (cc (rw other at h))
]

set_validator-eq :
    (h : ℕ) (v : Validator) (s s' : Validators) → set_validator h v s ≡ (ok tt, s') → s' ≡ file v s
set_validator-eq h v s s' e = sym (ap (λ r. r.1) e)

pub keepers-StakingLaws : StakingLaws keepers
keepers-StakingLaws = record {
  filed = λ h a s v got. ap ok (filed_under-eq-ok a (s a) v got);
  get-set = λ h a v s s' set named.
      let same : bytes_eq v.operator a ≡ true =
        ap (λ x. bytes_eq v.operator x) (sym (ok_inj named)) ∙ bytes_eq_refl v.operator in
      ap (λ x. get_validator h a x) (set_validator-eq h v s s' set) ∙ rw (same, same);
  get-set_ne = λ h a b v s s' set named apart.
      let other : bytes_eq v.operator b ≡ false = ap (λ x. bytes_eq x b) (ok_inj named) ∙ apart in
      ap (λ x. get_validator h b x) (set_validator-eq h v s s' set) ∙ rw other;
}

abbrev pub auth_types : AuthTypes
auth_types = record {
  BaseAccount = Bytes;
  validate_base_account = λ a. if bytes_eq a [] then err (external 1) else ok tt;
  validate_module_account = λ a name permissions. ok tt;
  is_zero = λ coins. none_left coins;
}
  where
    none_left : {A : Type 0} → List A → Bool
    none_left [] = true
    none_left (c ∷ cs) = false
