-- ===== src/Module/Authority.antt =====
-- Whom the keeper that ProvideModule builds answers to.
use stable_coin.Go.Outcome.{Outcome}
use stable_coin.Sdk.{Sdk}
use stable_coin.Keeper.State.{Keeper}
use stable_coin.Wire.ModuleConfig.{ModuleConfig}
