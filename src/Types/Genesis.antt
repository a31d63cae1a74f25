-- ===== src/Types/Genesis.antt =====
-- types/genesis.go and the struct of types/genesis.pb.go.
use stable_coin.Go.Outcome.{Outcome, Done}
use stable_coin.Sdk.{Sdk}
use stable_coin.Types.Params.{Params, default_params, validate}

pub record GenesisState : Type 0 where
  pub params : Params

unfoldable pub default_genesis : GenesisState
default_genesis = record { params = default_params }

-- GenesisState.Validate
unfoldable pub validate_genesis : Sdk → GenesisState → Outcome Done
validate_genesis k gs = validate k gs.params
