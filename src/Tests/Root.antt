-- ===== src/Tests/Root.antt =====
-- The root command over small libraries, with two orders in which to range over a map.
use stable_coin.Prelude.{
  ◌≡◌, refl, ap, ◌∙◌, List, [], ◌∷◌, ◌++◌, Option, none, some, Bytes, Bool, true, false, bytes_eq,
  bytes_eq→eq, Bool-cases, inl, inr, if◌then◌else◌,
}
use stable_coin.Go.Outcome.{Done, ok}
use stable_coin.Go.Map.{TextMap, SameEntries, HasUniqueKeys, bytes_ne_sym}
use stable_coin.Go.Strings.{lit}
use stable_coin.App.Runtime.{
  IbcName, ibc, transfer, ica, ica_host, ica_controller, tendermint, solomachine,
}
use stable_coin.Cmd.Commands.{Cobra}
use stable_coin.Cmd.Root.{Client, Injection, new_root_cmd}
use stable_coin.Cmd.Root.Order.{RangeLaws, new_root_cmd-order}

abbrev flatten : List (List Bytes) → List Bytes
flatten [] = []
flatten (c ∷ commands) = c ++ flatten commands

abbrev swap_first : {A : Type 0} → TextMap A → TextMap A
swap_first [] = []
swap_first (e ∷ []) = e ∷ []
swap_first (e ∷ f ∷ m) = f ∷ e ∷ m

as_given-RangeLaws : {A : Type 0} → RangeLaws {A = A} (λ m. m)
as_given-RangeLaws = record { same = λ m unique key. refl; once = λ m unique. unique }

apart :
    {A : Type 0} (t : Bool) (x : A) {o : Option A}
    → (if t then some x else o) ≡ none
    → (t ≡ false) × (o ≡ none)
apart true x h = cc
apart false x h = (refl, h)

swap_first-same : {A : Type 0} (m : TextMap A) → HasUniqueKeys m → SameEntries m (swap_first m)
swap_first-same [] unique key = refl
swap_first-same (e ∷ []) unique key = refl
swap_first-same (e ∷ f ∷ m) (once, unique) key =
    let (differs, _) = apart (bytes_eq e.0 f.0) f.1 once in
    elim (Bool-cases (bytes_eq key e.0)) [
      | inl same ↦
          let other : bytes_eq key f.0 ≡ false =
            ap (λ x. bytes_eq x f.0) (bytes_eq→eq key e.0 same) ∙ differs in
          rw (same, other) refl
      | inr differs_too ↦ rw differs_too refl
    ]

swap_first-once : {A : Type 0} (m : TextMap A) → HasUniqueKeys m → HasUniqueKeys (swap_first m)
swap_first-once [] unique = unique
swap_first-once (e ∷ []) unique = unique
swap_first-once (e ∷ f ∷ m) (once, rest) =
    let (later, unique) = rest in
    let (differs, absent) = apart (bytes_eq e.0 f.0) f.1 once in
    (rw (bytes_ne_sym e.0 f.0 differs) later, (absent, unique))

swap_first-RangeLaws : {A : Type 0} → RangeLaws {A = A} swap_first
swap_first-RangeLaws = record { same = swap_first-same; once = swap_first-once }

-- A command is its usage with those of its children.
abbrev small_cobra : Cobra
small_cobra = record {
  Command = List Bytes;
  TxConfig = Done;
  Basic = Bytes;
  library = λ c. [];
  parent = λ labels. labels.usage ∷ [];
  add_command = λ children c. c ++ flatten children;
  init_cmd = λ basics. lit "init" ∷ [];
  genesis_commands = λ tx basics. lit "genesis" ∷ [];
  in_place_testnet_cmd = lit "in-place-testnet" ∷ [];
  testnet_multi_node_cmd = λ basics. lit "multi-node" ∷ [];
  pruning_cmd = lit "prune" ∷ [];
  snapshot_cmd = lit "snapshots" ∷ [];
  add_start_commands = λ flags c. c ++ flags (lit "start" ∷ []);
}

abbrev small_client : Client small_cobra
small_client = record {
  Context = Bytes;
  Flags = Done;
  State = Done;
  AppConfig = Done;
  CometConfig = Done;
  Provided = Done;
  Options = Done;
  empty_context = λ p viper. viper;
  read_from_client_config = λ ctx. (ctx, none);
  read_persistent_command_flags = λ ctx flags. ok ctx;
  with_cmd_context = λ s ctx. ctx;
  with_viper = λ viper ctx. viper;
  set_outputs = λ s. s;
  set_cmd_client_context = λ ctx s. (ok tt, s);
  default_app_config = tt;
  default_app_template = [];
  default_comet_config = tt;
  intercept_configs = λ template app comet s. (ok tt, s);
  new_tx_config = λ ctx o. ok tt;
  with_textual = λ ctx o. o;
  with_tx_config = λ tx ctx. ctx;
  tx_config = λ ctx. tt;
}

abbrev ibc_text : IbcName → Bytes
ibc_text ibc = lit "ibc"
ibc_text transfer = lit "transfer"
ibc_text ica = lit "interchainaccounts"
ibc_text ica_host = lit "icahost"
ibc_text ica_controller = lit "icacontroller"
ibc_text tendermint = lit "07-tendermint"
ibc_text solomachine = lit "06-solomachine"

abbrev small_injection : Injection small_cobra small_client
small_injection = record {
  Module = IbcName;
  Registry = List IbcName;
  auto_modules = [];
  basic_manager = (lit "ibc", lit "stale") ∷ [];
  injected = ok (lit "ctx");
  ibc_key = ibc_text;
  new_ibc_module = λ name ctx. name;
  is_basic = λ m. true;
  register_interfaces = λ m registry. (ok tt, m ∷ registry);
  adaptor = λ key m. key;
  root_command = λ usage short silent run ctx. usage ∷ [];
  enhance = λ autos c. ok c;
}

new_root_cmd-order_example :
    (new_root_cmd small_injection (λ m. m) []).0 ≡ (new_root_cmd small_injection swap_first []).0
new_root_cmd-order_example =
    new_root_cmd-order small_injection (λ m. m) swap_first as_given-RangeLaws swap_first-RangeLaws
      (λ m registry. refl) (λ ctx. (refl, (refl, (refl, (refl, (refl, tt)))))) []
