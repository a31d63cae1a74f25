-- ===== src/Keeper/Query.antt =====
-- query_params.go: the Params query.
use stable_coin.Prelude.{Option, none, some}
use stable_coin.Go.Outcome.{
  Error, Outcome, ok, err, panic, not_found, status_invalid_argument, status_internal,
}
use stable_coin.Sdk.{Sdk}
use stable_coin.Types.Params.{Params, ParamsCodec, params_key, zero_params}
use stable_coin.Keeper.State.{World}

-- `err != nil && !errors.Is(err, collections.ErrNotFound)`
abbrev query_error : Error → Outcome Params
query_error not_found = ok zero_params
query_error _ = err status_internal

-- The request is an empty struct; `none` is a nil pointer. Beside an error Item.Get returns the
-- zero value of the struct, which is what the query answers when nothing is stored.
unfoldable pub query_params : (k : Sdk) → ParamsCodec → Option (Unit {0}) → World k → Outcome Params
query_params k c none w = err status_invalid_argument
query_params k c (some req) w = elim (k.item_get Params c.decode params_key w.store) [
  | ok p ↦ ok p
  | err e ↦ query_error e
  | panic ↦ panic
]
