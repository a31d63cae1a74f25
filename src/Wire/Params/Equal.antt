-- ===== src/Wire/Params/Equal.antt =====
-- (*Params).Equal against equality.
use stable_coin.Types.Params.{Params}
