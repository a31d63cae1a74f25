-- ===== src/Cmd/Root.antt =====
-- stbchain/cmd/stbchaind/cmd/root.go with config.go and main.go, and RegisterIBC of
-- stbchain/app/ibc.go: the root command and the client context. The SDK's client and server
-- packages, depinject and the IBC modules are parameters.
pub mod Order
use stable_coin.Prelude.{ℕ, List, [], ◌∷◌, ◌++◌, Bytes, Bool, true, if◌then◌else◌, Option, map}
use stable_coin.App.Runtime.{IbcName, ibc, transfer, ica, tendermint, solomachine}
use stable_coin.Go.Outcome.{Outcome, ok, err, panic, Done, Action, Error, after, check_err, ◌>>=◌}
use stable_coin.Go.Action.{fatal}
use stable_coin.Go.Map.{TextMap, entries, set_key, Entries}
use stable_coin.Go.Strings.{lit}
use stable_coin.Cmd.Commands.{Cobra, init_root_cmd}

-- app.Name
abbrev pub app_name : Bytes
app_name = lit "stbchain"

-- What root.go calls. `State` is what a run of a command changes: the outputs of the command, its
-- context and the configuration of the server.
pub record Client (b : Cobra) : Type 1 where
  pub Context : Type 0
  pub Flags : Type 0
  pub State : Type 0
  pub AppConfig : Type 0
  pub CometConfig : Type 0
  pub Provided : Type 0
  pub Options : Type 0
  -- client.Context{} with the provided codecs, the input, the account retriever, the home
  -- directory and the name as the prefix of the environment
  pub empty_context : Provided → Bytes → Context
  pub read_from_client_config : Context → Context × Option Error
  pub read_persistent_command_flags : Context → Flags → Outcome Context
  pub with_cmd_context : State → Context → Context
  pub with_viper : Bytes → Context → Context
  pub set_outputs : State → State
  pub set_cmd_client_context : Context → Action State Done
  pub default_app_config : AppConfig
  pub default_app_template : Bytes
  pub default_comet_config : CometConfig
  pub intercept_configs : Bytes → AppConfig → CometConfig → Action State Done
  pub new_tx_config : Context → Options → Outcome b.TxConfig
  pub with_textual : Context → Options → Options
  pub with_tx_config : b.TxConfig → Context → Context
  pub tx_config : Context → b.TxConfig

module _ {b : Cobra} (l : Client b) where
  -- ProvideClientContext: the error of the client configuration is dropped.
  unfoldable pub provide_client_context : l.Provided → l.Options → Outcome l.Context
  provide_client_context provided options =
      let ctx = (l.read_from_client_config (l.empty_context provided app_name)).0 in
      do tx ← fatal (l.new_tx_config ctx (l.with_textual ctx options)); ok (l.with_tx_config tx ctx)

  -- initCometBFTConfig and initAppConfig
  unfoldable pub init_comet_bft_config : l.CometConfig
  init_comet_bft_config = l.default_comet_config

  unfoldable pub init_app_config : Bytes × l.AppConfig
  init_app_config = (l.default_app_template, l.default_app_config)

  -- The context that the closure of PersistentPreRunE captures, beside the state of the command.
  pub record Running : Type 0 where
    pub captured : l.Context
    pub state : l.State

  abbrev on_state : {A : Type 0} → Action l.State A → Action Running A
  on_state call s = let (r, state) = call s.state in (r, record s { state = state })

  -- PersistentPreRunE. The assignment to the captured context comes before the declaration that
  -- shadows it, so that neither the flags nor the configuration reach the next run.
  unfoldable pub persistent_pre_run : l.Flags → Action Running Done
  persistent_pre_run flags s =
      let shown = l.set_outputs s.state in
      let ctx = l.with_viper app_name (l.with_cmd_context shown s.captured) in
      after (l.read_persistent_command_flags ctx flags, record { captured = ctx; state = shown })
        λ flagged s.
          after (check_err (l.read_from_client_config flagged), s)
            λ configured s. after (on_state (l.set_cmd_client_context configured) s) λ _ s.
              let (template, config) = init_app_config in
              on_state (l.intercept_configs template config init_comet_bft_config) s

-- 0 for a run without an error, and os.Exit(1) after one that was printed.
abbrev exit_code : {World : Type 0} → Outcome Done × World → Outcome ℕ × World
exit_code (ok u, w) = (ok 0, w)
exit_code (err e, w) = (ok 1, w)
exit_code (panic, w) = (panic, w)

-- What NewRootCmd takes from depinject, autocli and the IBC modules. `ibc_key` are the constants
-- of the module names, `order` is the order that the runtime takes to range over a map, and
-- `registry` below the interface registry of the codec, which AppModuleBasic modules write to.
pub record Injection (b : Cobra) (l : Client b) : Type 1 where
  pub Module : Type 0
  pub Registry : Type 0
  pub auto_modules : TextMap Module
  pub basic_manager : TextMap b.Basic
  pub injected : Outcome l.Context
  pub ibc_key : IbcName → Bytes
  pub new_ibc_module : IbcName → l.Context → Module
  pub is_basic : Module → Bool
  pub register_interfaces : Module → Action Registry Done
  pub adaptor : Bytes → Module → b.Basic
  pub root_command :
      Bytes → Bytes → Bool → (l.Flags → Action (Running l) Done) → l.Context → b.Command
  pub enhance : Entries Module → b.Command → Outcome b.Command

module _ {b : Cobra} {l : Client b} (d : Injection b l) where
  -- `if mr, ok := m.(module.AppModuleBasic); ok`
  abbrev pub register_basic : TextMap d.Module → Action d.Registry Done
  register_basic [] registry = (ok tt, registry)
  register_basic (e ∷ m) registry =
      after (if d.is_basic e.1 then d.register_interfaces e.1 registry else (ok tt, registry))
        (λ _. register_basic m)

  abbrev pub ibc_map : l.Context → TextMap d.Module
  ibc_map ctx =
      map (λ name. (d.ibc_key name, d.new_ibc_module name ctx))
        (ibc ∷ transfer ∷ ica ∷ tendermint ∷ solomachine ∷ [])

  -- RegisterIBC
  unfoldable pub register_ibc :
      (TextMap d.Module → TextMap d.Module) → l.Context → Action d.Registry (TextMap d.Module)
  register_ibc order ctx registry =
      after (register_basic (order (ibc_map ctx)) registry) (λ _ s. (ok (ibc_map ctx), s))

  -- The maps that the loop of NewRootCmd fills.
  pub record Managers : Type 0 where
    pub basics : TextMap b.Basic
    pub autos : TextMap d.Module

  unfoldable pub add_modules : TextMap d.Module → Managers → Managers
  add_modules [] s = s
  add_modules (e ∷ m) s = add_modules m (record {
    basics = set_key e.0 (d.adaptor e.0 e.1) s.basics;
    autos = set_key e.0 e.1 s.autos;
  })

  -- NewRootCmd
  unfoldable pub new_root_cmd : (TextMap d.Module → TextMap d.Module) → Action d.Registry b.Command
  new_root_cmd order registry =
      after (fatal d.injected, registry)
        λ ctx registry.
          let root =
            d.root_command (app_name ++ lit "d") (lit "stbchain node") true (persistent_pre_run l)
              ctx in
          after (register_ibc order ctx registry) λ ibc_modules registry.
            let managers =
              add_modules (order ibc_modules)
                (record { basics = d.basic_manager; autos = d.auto_modules }) in
            let cmd = init_root_cmd b (l.tx_config ctx) (entries managers.basics) root in
            (fatal (d.enhance (entries managers.autos) cmd), registry)

  -- main: `execute` is svrcmd.Execute with the default home, and an error ends with exit code 1.
  unfoldable pub main :
      {World : Type 0}
      → (b.Command → Action World Done)
      → Outcome b.Command
      → World
      → Outcome ℕ × World
  main execute (ok root) w = exit_code (execute root w)
  main execute (err e) w = (err e, w)
  main execute panic w = (panic, w)
