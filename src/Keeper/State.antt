-- ===== src/Keeper/State.antt =====
-- keeper.go, params.go, supply.go and genesis.go: what the keeper reads and writes.
pub mod Supply
pub mod Genesis
use stable_coin.Prelude.{Bytes, Option, none, some}
use stable_coin.Prelude.Int.{ℤ, pos}
use stable_coin.Go.Outcome.{Error, Outcome, ok, err, panic, Done, Action, ◌>>=◌}
use stable_coin.Sdk.{Sdk}
use stable_coin.Types.Params.{Params, ParamsCodec, default_params, params_key, total_supply_key}
use stable_coin.Types.Genesis.{GenesisState, default_genesis}

-- The part of the chain's state that the module touches: its own store, and the bank's.
pub record World (k : Sdk) : Type 0 where
  pub store : k.Store
  pub bank : k.Bank

-- The fields of `Keeper` that are data. The services are the arguments `k` and `c`.
pub record Keeper : Type 0 where
  pub authority : Bytes

-- NewKeeper: an authority that cannot be written as an address is a panic. The schema of the
-- store, which the collections library builds from the one item, is left out.
unfoldable pub new_keeper : Sdk → Bytes → Outcome Keeper
new_keeper k authority = elim (k.bytes_to_string authority) [
  | ok _ ↦ ok (record { authority = authority })
  | err _ ↦ panic
  | panic ↦ panic
]

-- GetAuthority
unfoldable pub get_authority : Keeper → Bytes
get_authority keeper = keeper.authority

module _ (k : Sdk) where
  -- A call that changes the module's store alone, and one that changes the bank alone.
  abbrev pub put_store : {A : Type 0} → World k → Outcome A × k.Store → Outcome A × World k
  put_store w (r, s) = (r, record w { store = s })

  abbrev pub on_store : {A : Type 0} → Action k.Store A → Action (World k) A
  on_store f w = put_store w (f w.store)

  abbrev pub put_bank : {A : Type 0} → World k → Outcome A × k.Bank → Outcome A × World k
  put_bank w (r, b) = (r, record w { bank = b })

  abbrev pub on_bank : {A : Type 0} → Action k.Bank A → Action (World k) A
  on_bank f w = put_bank w (f w.bank)

  -- The text of the total supply as a number, 0 where it cannot be read.
  abbrev pub read_supply : Option Bytes → ℤ
  read_supply none = pos 0
  read_supply (some bz) = elim (k.new_int_from_string bz) [ none ↦ pos 0 | some a ↦ a ]

  -- GetTotalSupply: an error of the store and a missing or unreadable value all count as 0.
  unfoldable pub get_total_supply : World k → Outcome ℤ
  get_total_supply w = elim (k.kv_get total_supply_key w.store) [
    | ok bz ↦ ok (read_supply bz)
    | err _ ↦ ok (pos 0)
    | panic ↦ panic
  ]

  -- `_ = store.Set(…)`: the error is dropped.
  abbrev pub ignore_err : Outcome Done × World k → Outcome Done × World k
  ignore_err (ok u, w) = (ok u, w)
  ignore_err (err e, w) = (ok tt, w)
  ignore_err (panic, w) = (panic, w)

  -- SetTotalSupply
  unfoldable pub set_total_supply : ℤ → Action (World k) Done
  set_total_supply amount w =
      ignore_err (on_store (k.kv_set total_supply_key (k.int_string amount)) w)

  module _ (c : ParamsCodec) where
    -- GetParams, with the default parameters beside an error.
    unfoldable pub get_params : World k → Outcome (Params × Option Error)
    get_params w = elim (k.item_get Params c.decode params_key w.store) [
      | ok p ↦ ok (p, none)
      | err e ↦ ok (default_params, some e)
      | panic ↦ panic
    ]

    -- SetParams
    unfoldable pub set_params : Params → Action (World k) Done
    set_params p = on_store (k.item_set Params c.encode params_key p)

    -- InitGenesis: the parameters alone are stored.
    unfoldable pub init_genesis : GenesisState → Action (World k) Done
    init_genesis gs = on_store (k.item_set Params c.encode params_key gs.params)

    -- ExportGenesis
    unfoldable pub export_genesis : World k → Outcome GenesisState
    export_genesis w = do
      p ← k.item_get Params c.decode params_key w.store
      ok (record default_genesis { params = p })
