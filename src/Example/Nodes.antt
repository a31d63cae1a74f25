-- ===== src/Example/Nodes.antt =====
-- Small models of what the two testnet commands call, on which the tests run.
use stable_coin.Prelude.{
  ℕ, ◌+◌, ◌*◌, ◌≡◌, refl, sym, ap, ◌∙◌, Bytes, true, false, List, [], ◌∷◌, ◌++◌, Option, none, some,
  bytes_eq, bytes_eq→eq, if◌then◌else◌, arith, Bool-cases, inl, inr,
}
use mathlib.Core.Path.{subst}
use stable_coin.Prelude.Int.{int_laws, pos, ◌+ℤ◌}
use stable_coin.Go.Outcome.{ok, Action, ok_inj}
use stable_coin.Go.Strings.{lit}
use stable_coin.App.Export.{is_listed}
use stable_coin.Cmd.InPlace.{InPlace, Cursor, ended, standing, OptionValue, text}
use stable_coin.Cmd.Testnet.Clear.{ClearLaws, ComesTo}
use stable_coin.Sdk.{Coins, amount_of}
use stable_coin.Cmd.Network.{Network}
use stable_coin.Cmd.MultiNode.Supply.{AddLaws}

-- The keys of a store.
abbrev pub Keys : Type 0
Keys = List Bytes

unfoldable pub remove : Bytes → Keys → Keys
remove key [] = []
remove key (k ∷ ks) = if bytes_eq key k then remove key ks else k ∷ remove key ks

abbrev idle : {S A : Type 0} → A → Action S A
idle a s = (ok a, s)

abbrev to_string : OptionValue → Bytes
to_string (text s) = s
to_string v = []

-- An iterator that runs through the keys that were there when it was opened.
unfoldable pub walk : Keys → Cursor Keys
walk [] = ended
walk (k ∷ ks) = standing k (λ s. walk ks)

-- Every iterator runs through all the keys.
abbrev pub in_place : InPlace
in_place = record {
  Store = Keys;
  Decimal = Bytes;
  dec = λ s. some s;
  to_string = to_string;
  any_of_pubkey = λ key. ok key;
  delete = λ key s. (ok tt, remove key s);
  power_keys = λ s. ok (walk s);
  last_validator_keys = λ s. ok (walk s);
  range_keys = λ start end s. ok (walk s);
  prefix_end = λ key. key;
  validators_key = lit "!";
  validator_queue_key = lit "C";
  validator_bytes = λ s. ok s;
  set_validator = λ v. idle tt;
  set_validator_by_cons_addr = λ v. idle tt;
  set_validator_by_power_index = λ v. idle tt;
  set_last_validator_power = λ a power. idle tt;
  after_validator_created = λ a. idle tt;
  bond_denom = λ s. ok (lit "stake");
  set_historical_rewards = λ a period count. idle tt;
  set_current_rewards = λ a period. idle tt;
  set_initial_commission = λ a. idle tt;
  set_empty_outstanding_rewards = λ a. idle tt;
  cons_address_text = λ a. a;
  set_signing_info = λ a info. idle tt;
  last_block_height = pos 41;
}

pub is_listed-remove : (key : Bytes) (ks : Keys) → is_listed key (remove key ks) ≡ false
unfolding remove
is_listed-remove key [] = refl
is_listed-remove key (k ∷ ks) = elim (Bool-cases (bytes_eq key k)) [
  | inl same ↦ rw same (is_listed-remove key ks)
  | inr apart ↦ rw (apart, apart) (is_listed-remove key ks)
]

pub is_listed-remove_less :
    (key a : Bytes) (ks : Keys) → is_listed a ks ≡ false → is_listed a (remove key ks) ≡ false
unfolding remove
is_listed-remove_less key a [] h = refl
is_listed-remove_less key a (k ∷ ks) h = ground (arith, is_listed-remove_less key a ks)

comes_to :
    (key : Bytes) (ks : Keys) (s : Keys)
    → is_listed key ks ≡ true
    → ComesTo in_place key (walk ks) s
unfolding walk
comes_to key [] s h = cc
comes_to key (k ∷ ks) s h = elim (Bool-cases (bytes_eq key k)) [
  | inl same ↦ inl (bytes_eq→eq key k same)
  | inr apart ↦ inr (λ s' e. comes_to key ks s' (rw apart at h))
]

pub walk-ComesTo :
    (key : Bytes) (ks : Keys) (c : Cursor Keys) (s : Keys)
    → ok (walk ks) ≡ ok c
    → is_listed key ks ≡ true
    → ComesTo in_place key c s
walk-ComesTo key ks c s e h = subst (λ x. ComesTo in_place key x s) (ok_inj e) (comes_to key ks s h)

unfoldable pub in_place-ClearLaws : ClearLaws in_place
in_place-ClearLaws = record {
  has = is_listed;
  deleted = λ key s s' e. ap (is_listed key) (sym (ap (λ r. r.1) e)) ∙ is_listed-remove key s;
  still_gone = λ key a s s' e gone.
      ap (is_listed a) (sym (ap (λ r. r.1) e)) ∙ is_listed-remove_less key a s gone;
  is_power = λ key. true;
  is_last_validator = λ key. true;
  in_range = λ start end key. true;
  power_lists = λ key s c e within there. walk-ComesTo key s c s e there;
  last_lists = λ key s c e within there. walk-ComesTo key s c s e there;
  range_lists = λ start end key s c e within there. walk-ComesTo key s c s e there;
}

abbrev joined_path : List Bytes → Bytes
joined_path [] = []
joined_path (p ∷ ps) = lit "/" ++ p ++ joined_path ps

-- The world counts the nodes that were initialized.
abbrev pub network : Network
network = record {
  World = ℕ;
  join = joined_path;
  base = λ path. path;
  abs = λ path w. ok path;
  rel = λ from to. ok to;
  File = Bytes;
  mkdir_all = λ dir perm. idle tt;
  remove_all = λ dir. idle tt;
  write_file = λ file contents perm. idle tt;
  open_file = λ file. idle file;
  create_file = λ file. idle file;
  copy = λ to from. idle 0;
  sync = λ file. idle tt;
  close = λ file. idle tt;
  random_below = λ n. idle 0;
  PubKey = Bytes;
  genesis_file = λ config. config.root_dir ++ lit "/genesis.json";
  initialize_node_validator_files = λ config w. (ok ((97 + w) ∷ [], lit "key"), w + 1);
  write_node_config = λ file config. idle tt;
  default_app_config = record {
    min_gas_prices = [];
    api_enable = true;
    api_address = [];
    grpc_address = [];
    enable_hostname_label = true;
    telemetry_enabled = true;
    prometheus_retention_time = 60;
    other_fields = [];
  };
  write_app_config = λ file config. idle tt;
  Keyring = Bytes;
  Algo = Bytes;
  new_keyring = λ backend dir. idle dir;
  signing_algo = λ algo kb. ok algo;
  generate_save_coin_key = λ kb name algo. idle (name, lit "words");
  marshal_secret = λ secret. ok secret;
  tokens_from_power = λ power. pos (power * 1000000);
  sort_coins = λ coins. coins;
  acc_text = λ a. a;
  val_text = λ a. a;
  Account = Bytes;
  new_base_account = λ a. a;
  Msg = Bytes;
  new_msg_create_validator = λ operator key stake moniker. ok operator;
  TxBuilder = Bytes;
  new_tx_builder = [];
  set_msgs = λ msg builder. ok msg;
  set_memo = λ memo builder. builder ++ memo;
  sign = λ chain memo kb name builder. idle builder;
  encode_tx = λ builder. ok builder;
  AuthGenesis = Bytes;
  Packed = List Bytes;
  default_genesis = λ name. [];
  unmarshal_auth = λ json. some json;
  marshal_auth = λ state. some state;
  with_accounts = λ accounts state. state;
  pack_accounts = λ accounts. ok accounts;
  unmarshal_bank = λ json. some (record { balances = []; supply = []; other_fields = json });
  marshal_bank = λ bank. some bank.other_fields;
  sanitize_genesis_balances = λ balances. balances;
  add_coins = λ a b. some (a ++ b);
  marshal_app_state = λ state. ok (state (lit "bank"));
  save_as = λ doc file. idle tt;
  AppGenesis = Bytes;
  app_genesis_from_file = λ file. idle file;
  gen_app_state_from_config = λ config chain dir id key genesis. idle none;
  Time = ℕ;
  now = idle 0;
  export_genesis_file_with_time = λ file chain state time. idle tt;
}

amount_of-append : (d : Bytes) (a b : Coins) → amount_of d (a ++ b) ≡ amount_of d a +ℤ amount_of d b
amount_of-append d [] b = grind int_laws
amount_of-append d (c ∷ a) b = grind (int_laws, amount_of-append d a b)

abbrev coins_of : Option Coins → Coins
coins_of none = []
coins_of (some coins) = coins

pub network-AddLaws : AddLaws network
network-AddLaws = record {
  amount_of-add = λ d a b c e. ap (amount_of d) (sym (ap coins_of e)) ∙ amount_of-append d a b;
}
