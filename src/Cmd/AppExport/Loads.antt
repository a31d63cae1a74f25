-- ===== src/Cmd/AppExport/Loads.antt =====
-- What a finished export rests on.
use stable_coin.Go.Outcome.{Outcome}
use stable_coin.App.Keepers.{Keepers}
