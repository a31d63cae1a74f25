-- ===== src/Example/Rewards.antt =====
-- A small distribution keeper: a pool and the outstanding rewards of each address. The other
-- keepers do nothing.
use stable_coin.Prelude.{
  ℕ, ◌+◌, refl, sym, ap, ◌∙◌, Bytes, false, List, [], ◌∷◌, none, bytes_eq, bytes_eq_refl,
  if◌then◌else◌,
}
use stable_coin.Go.Outcome.{ok, Action, not_found, err}
use stable_coin.Go.Strings.{lit}
use stable_coin.App.Keepers.{Keepers, Validator}
use stable_coin.App.Export.Distribution.{DistributionLaws, visit_all}

pub record Funds : Type 0 where
  pub pool : ℕ
  pub rewards : Bytes → ℕ

abbrev pub validator_named : Bytes → Validator
validator_named name = record {
  operator = name;
  jailed = false;
  unbonding_height = 0;
  other_fields = [];
}

abbrev pub both_validators : List Validator
both_validators = validator_named (lit "alice") ∷ validator_named (lit "bob") ∷ []

abbrev idle : {A : Type 0} → A → Action Funds A
idle a s = (ok a, s)

abbrev pub fund_keepers : Keepers
fund_keepers = record {
  Store = Funds;
  DecCoins = ℕ;
  add_dec_coins = λ a b. a + b;
  FeePool = ℕ;
  community_pool = λ pool. pool;
  with_community_pool = λ coins pool. coins;
  signing_validator_bytes = λ a. ok a;
  signing_account_bytes = λ a. ok a;
  validator_bytes = λ a. ok a;
  validator_text = λ a. ok a;
  iterate_validators = λ h f. visit_all f both_validators;
  get_all_delegations = λ h s. ok [];
  iterate_redelegations = λ h f. idle tt;
  set_redelegation = λ h u. idle tt;
  iterate_unbonding_delegations = λ h f. idle tt;
  set_unbonding_delegation = λ h u. idle tt;
  get_validator = λ h a s. err not_found;
  set_validator = λ h v. idle tt;
  apply_validator_set_updates = λ h. idle tt;
  validator_keys = λ h s. ok [];
  close_iterator = λ s. ok tt;
  address_from_key = λ key. none;
  withdraw_validator_commission = λ h a. idle 0;
  withdraw_delegation_rewards = λ h a b. idle 0;
  delete_all_validator_slash_events = λ h. idle tt;
  delete_all_validator_historical_rewards = λ h. idle tt;
  get_outstanding_rewards = λ h a s. ok (s.rewards a);
  get_fee_pool = λ h s. ok s.pool;
  set_fee_pool = λ h pool s. (ok tt, record s { pool = pool });
  after_validator_created =
      λ h a s. (ok tt, record s { rewards = λ b. if bytes_eq a b then 0 else s.rewards b });
  before_delegation_created = λ h a b. idle tt;
  after_delegation_modified = λ h a b. idle tt;
  iterate_signing_infos = λ h f. idle tt;
  set_signing_info = λ h a info. idle tt;
  GenesisDoc = Bytes;
  export_genesis_for_modules = λ h modules. idle [];
  marshal_indent = λ doc. ok doc;
  Validators = ℕ;
  write_validators = λ h. idle (2, none);
  ConsensusParams = ℕ;
  consensus_params = λ h s. ok 7;
  last_block_height = 41;
}

abbrev pub fund_laws : DistributionLaws fund_keepers
fund_laws = record {
  validators = λ s. both_validators;
  iterate = λ f s. refl;
  pool-with = λ c p. refl;
  get-set = λ p s s' e. ap (λ x. ok x.1.pool) (sym e);
  rewards-set = λ p s s' a e. ap (λ x. ok (x.1.rewards a)) (sym e);
  pool-created = λ a s s' e. ap (λ x. ok x.1.pool) (sym e);
  no_coins = 0;
  rewards-reset = λ a s s' e.
      ap (λ x. ok (x.1.rewards a)) (sym e)
      ∙ ap (λ t. ok (if t then 0 else s.rewards a)) (bytes_eq_refl a);
  rewards-created = λ a b s s' e differs.
      ap (λ x. ok (x.1.rewards b)) (sym e) ∙ ap (λ t. ok (if t then 0 else s.rewards b)) differs;
}
