-- ===== src/App/Runtime.antt =====
-- What app.go and ibc.go take from their libraries: the dependency injection, the BaseApp and the
-- constructors of the IBC modules, as changes of the app that is built.
use stable_coin.Prelude.{Bytes, Bool, List, Option}
use stable_coin.Prelude.Int.{ℤ}
use stable_coin.Go.Outcome.{Outcome, Done, Action}

-- The names that ibc.go uses for stores, subspaces, routes, light clients and modules.
pub data IbcName : Type 0 where
  ibc transfer ica ica_host ica_controller tendermint solomachine : IbcName

-- The modules at the end of the routes.
pub data Stack : Type 0 where
  transfer_stack transfer_stack_v2 controller_stack host_stack : Stack

pub record Runtime : Type 1 where
  pub App : Type 0
  -- depinject.Inject of AppConfig and the options, into an empty app
  pub Options : Type 0
  pub inject : Options → Outcome App
  -- the options of the BaseApp: DefaultBaseappOptions and SetOptimisticExecution
  pub BaseOption : Type 0
  pub default_options : Options → List BaseOption
  pub optimistic_execution : BaseOption
  pub build : List BaseOption → Action App Done
  -- RegisterStores, UnsafeFindStoreKey with the cast to a KVStoreKey, Subspace with the name's key
  -- table, GetSubspace with its flag
  pub Key : Type 0
  pub Subspace : Type 0
  pub register_stores : List IbcName → Action App Done
  pub find_store_key : IbcName → App → Option Key
  pub add_subspace : IbcName → Action App Done
  pub get_subspace : IbcName → App → Subspace × Bool
  -- the text of the governance module's address, and its error
  pub gov_address : App → Bytes × Bool
  -- the constructors of the keepers, which are put into the app; a nil key is `none`
  pub new_keeper : IbcName → Option Key → Subspace → Bytes → Action App Done
  pub set_router : List (IbcName × Stack) → Action App Done
  pub set_router_v2 : List (IbcName × Stack) → Action App Done
  pub add_light_client : IbcName → Action App Done
  pub register_modules : List IbcName → Action App Done
  -- the simulation manager
  pub new_simulation_manager : Action App Done
  pub register_store_decoders : Action App Done
  -- the InitChainer of the runtime, and the one that is set
  pub Request : Type 0
  pub Response : Type 0
  pub set_module_version_map : Action App Done
  pub init_chain : Request → Action App Response
  pub set_init_chainer : (Request → Action App Response) → Action App Done
  pub load : Bool → Action App Done
  pub load_height : ℤ → Action App Done
