-- ===== src/Module/Wiring.antt =====
-- stbchain/x/stablecoin/module/module.go beside its genesis functions, module/simulation.go and
-- types/codec.go. A conn to the app is the client context that the gateway is given.
use stable_coin.Prelude.{ℕ, List, ◌∷◌, Bytes}
use stable_coin.Go.Outcome.{Outcome, ok, err, panic, Done, Action}
use stable_coin.Go.Action.{or_die}
use stable_coin.Go.Map.{TextMap, set_key}
use stable_coin.Go.Strings.{lit}
use stable_coin.Types.Params.{module_name, default_params}
use stable_coin.Keeper.State.{Keeper}
use stable_coin.Gateway.{Web, Runtime, Mux, new_query_client, register_query_handler_client}
use stable_coin.Module.{JsonCodec, must}

pub record AppModule : Type 0 where
  pub cdc : JsonCodec
  pub keeper : Keeper

unfoldable pub new_app_module : JsonCodec → Keeper → AppModule
new_app_module cdc keeper = record { cdc = cdc; keeper = keeper }

-- AppModule.Name and AppModule.ConsensusVersion
abbrev pub name : Bytes
name = module_name

abbrev pub consensus_version : ℕ
consensus_version = 1

-- AppModule.BeginBlock and AppModule.EndBlock
unfoldable pub begin_block : {S : Type 0} → AppModule → Action S Done
begin_block am s = (ok tt, s)

unfoldable pub end_block : {S : Type 0} → AppModule → Action S Done
end_block am s = (ok tt, s)

-- AppModule.RegisterGRPCGatewayRoutes
unfoldable pub register_grpc_gateway_routes :
    (t : Web) → Runtime t → t.Connection → Action (Mux t) Done
register_grpc_gateway_routes t rt client_ctx =
    or_die (register_query_handler_client t rt (new_query_client t rt client_ctx))

-- types.RegisterInterfaces: the one implementation of sdk.Msg that is named, and the services
-- whose requests msgservice.RegisterMsgServiceDesc adds.
pub record Registry : Type 0 where
  pub messages : List Bytes
  pub services : List Bytes

unfoldable pub register_interfaces : Registry → Registry
register_interfaces registry = record {
  messages = lit "MsgUpdateParams" ∷ registry.messages;
  services = lit "stbchain.stablecoin.v1.Msg" ∷ registry.services;
}

-- AppModule.GenerateGenesisState; the addresses it collects are not used. `accs` is dropped.
pub record SimulationState : Type 0 where
  pub gen_state : TextMap Bytes

unfoldable pub generate_genesis_state : JsonCodec → SimulationState → Outcome SimulationState
generate_genesis_state cdc sim =
    elim (must (cdc.marshal_json (record { params = default_params }))) [
      | ok bz ↦ ok (record { gen_state = set_key module_name bz sim.gen_state })
      | err e ↦ err e
      | panic ↦ panic
    ]
