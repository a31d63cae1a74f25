-- ===== src/App/New.antt =====
-- stbchain/app/app.go: New and GetSubspace and GetKey, and registerIBCModules of
-- stbchain/app/ibc.go.
pub mod Keys
use stable_coin.Prelude.{Bytes, Bool, List, [], ◌∷◌, ◌++◌, Option}
use stable_coin.Go.Outcome.{Outcome, ok, Done, Action}
use stable_coin.Go.Outcome
use stable_coin.Go.Action.{◌>>=◌, ◌>>◌, pure, calling, fatal, or_die}
use stable_coin.App.Runtime.{
  Runtime, IbcName, ibc, transfer, ica, ica_host, ica_controller, tendermint, solomachine, Stack,
  transfer_stack, transfer_stack_v2, controller_stack, host_stack,
}

module _ (r : Runtime) where
  -- The flag of the parameters' keeper is dropped.
  unfoldable pub get_subspace : IbcName → r.App → r.Subspace
  get_subspace name app = (r.get_subspace name app).0

  unfoldable pub get_key : IbcName → r.App → Option r.Key
  get_key name app = r.find_store_key name app

  -- A keeper on the store and the subspace of its name.
  unfoldable pub create_keeper : IbcName → Bytes → Action r.App Done
  create_keeper name gov app = r.new_keeper name (get_key name app) (get_subspace name app) gov app

  unfoldable pub register_params : Action r.App Done
  register_params = do
    r.add_subspace ibc
    r.add_subspace transfer
    r.add_subspace ica_controller
    r.add_subspace ica_host

  unfoldable pub create_keepers : Bytes → Action r.App Done
  create_keepers gov = do
    create_keeper ibc gov
    create_keeper transfer gov
    create_keeper ica_host gov
    create_keeper ica_controller gov

  unfoldable pub add_routes : Action r.App Done
  add_routes = do
    r.set_router (
        (transfer, transfer_stack)
        ∷ (ica_controller, controller_stack)
        ∷ (ica_host, host_stack)
        ∷ [])
    r.set_router_v2 ((transfer, transfer_stack_v2) ∷ [])
    r.add_light_client tendermint
    r.add_light_client solomachine

  unfoldable pub register_ibc_modules : Action r.App Done
  register_ibc_modules = do
    r.register_stores (ibc ∷ transfer ∷ ica_host ∷ ica_controller ∷ [])
    register_params
    gov ← λ app. (ok (r.gov_address app).0, app)
    create_keepers gov
    add_routes
    r.register_modules (ibc ∷ transfer ∷ ica ∷ tendermint ∷ solomachine ∷ [])

  -- The InitChainer that is set.
  unfoldable pub init_chainer : r.Request → Action r.App r.Response
  init_chainer req = do r.set_module_version_map; r.init_chain req

  -- What New does with the injected app.
  unfoldable pub finish_app : Bool → List r.BaseOption → Action r.App Done
  finish_app load_latest base_options = do
    r.build (base_options ++ (r.optimistic_execution ∷ []))
    or_die register_ibc_modules
    r.new_simulation_manager
    r.register_store_decoders
    r.set_init_chainer init_chainer
    or_die (r.load load_latest)

  -- The app comes back with its outcome: an app that was not finished is not used.
  abbrev pub finished : Outcome Done × r.App → Outcome r.App
  finished (result, app) = Outcome.◌>>=◌ result λ _. ok app

  unfoldable pub new : Bool → r.Options → List r.BaseOption → Outcome r.App
  new load_latest app_opts base_options =
      Outcome.◌>>=◌ (fatal (r.inject app_opts))
        λ app. finished (finish_app load_latest base_options app)
