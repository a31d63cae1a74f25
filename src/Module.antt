-- ===== src/Module.antt =====
-- stbchain/x/stablecoin/module: ProvideModule of depinject.go and the genesis functions of
-- module.go.
pub mod Authority
pub mod Genesis
pub mod Wiring
pub mod Http
pub mod ReadBack
use stable_coin.Prelude.{Bytes, [], not, bytes_eq, if◌then◌else◌}
use stable_coin.Go.Outcome.{Outcome, ok, err, panic, Done, Action, after, reading, ◌>>=◌, ◌>>◌}
use stable_coin.Sdk.{Sdk}
use stable_coin.Types.Params.{ParamsCodec, gov_module_name}
use stable_coin.Types.Genesis.{GenesisState, default_genesis, validate_genesis}
use stable_coin.Keeper.State.{World, Keeper, new_keeper, init_genesis, export_genesis}
use stable_coin.Wire.ModuleConfig.{ModuleConfig}

-- authtypes.NewModuleAddress and NewModuleAddressOrBech32Address.
pub record Addresses : Type 0 where
  pub new_module_address : Bytes → Bytes
  pub new_module_address_or_bech32 : Bytes → Bytes

-- The authority: the governance module's address, unless the configuration names another.
unfoldable pub provide_authority : Addresses → ModuleConfig → Bytes
provide_authority a config =
    if not (bytes_eq config.authority [])
    then a.new_module_address_or_bech32 config.authority
    else a.new_module_address gov_module_name

-- ProvideModule
unfoldable pub provide_module : Sdk → Addresses → ModuleConfig → Outcome Keeper
provide_module k a config = new_keeper k (provide_authority a config)

-- The JSON codec of the genesis state.
pub record JsonCodec : Type 0 where
  pub marshal_json : GenesisState → Outcome Bytes
  pub unmarshal_json : Bytes → Outcome GenesisState

-- `if err := …; err != nil { panic(…) }`
abbrev pub must : {A : Type 0} → Outcome A → Outcome A
must (ok value) = ok value
must (err e) = panic
must panic = panic

abbrev must_after : {S A : Type 0} → Outcome A × S → Outcome A × S
must_after (r, s) = (must r, s)

-- AppModule.DefaultGenesis; MustMarshalJSON panics.
unfoldable pub default_module_genesis : JsonCodec → Outcome Bytes
default_module_genesis json = must (json.marshal_json default_genesis)

module _ (k : Sdk) (json : JsonCodec) where
  -- AppModule.ValidateGenesis
  unfoldable pub validate_module_genesis : Bytes → Outcome Done
  validate_module_genesis bz = do gen_state ← json.unmarshal_json bz; validate_genesis k gen_state

  module _ (c : ParamsCodec) where
    -- AppModule.InitGenesis
    unfoldable pub init_module_genesis : Bytes → Action (World k) Done
    init_module_genesis bz w =
        after (reading (λ _. must (json.unmarshal_json bz)) w)
          λ gen_state w₁. must_after (init_genesis k c gen_state w₁)

    -- AppModule.ExportGenesis
    unfoldable pub export_module_genesis : World k → Outcome Bytes
    export_module_genesis w = do
      gen_state ← must (export_genesis k c w)
      must (json.marshal_json gen_state)
