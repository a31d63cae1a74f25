-- ===== src/Keeper/State/Genesis.antt =====
-- Genesis import and export of the module.
use stable_coin.Prelude.{◌≡◌, refl, ◌∙◌, sym, ◌↔◌, none, arith}
use stable_coin.Prelude.Int.{pos}
use stable_coin.Go.Outcome.{ok}
use stable_coin.Sdk.{Sdk, StoreLaws}
use stable_coin.Types.Params.{ParamsCodec, CodecLaws, total_supply_key}
use stable_coin.Types.Genesis.{GenesisState, default_genesis}
use stable_coin.Keeper.State.{
  World, get_params, set_params, get_total_supply, init_genesis, export_genesis,
}
use stable_coin.Keeper.State.Supply.{get_params-set_params, get_total_supply-set_params}

no_counter :
    (k : Sdk) (w : World k)
    → k.kv_get total_supply_key w.store ≡ ok none
    → get_total_supply k w ≡ ok (pos 0)
unfolding get_total_supply
no_counter k w e = rw (e, get_total_supply)

module _ (k : Sdk) (c : ParamsCodec) where
  init_genesis-set_params :
      (gs : GenesisState) (w : World k) → init_genesis k c gs w ≡ set_params k c gs.params w
  unfolding init_genesis set_params
  init_genesis-set_params gs w = refl

  export_genesis-get_params :
      (w : World k) (gs : GenesisState)
      → (export_genesis k c w ≡ ok gs) ↔ (get_params k c w ≡ ok (gs.params, none))
  unfolding export_genesis get_params default_genesis
  export_genesis-get_params w gs = (λ h. ground arith, λ h. ground arith)

  module _ (stores : StoreLaws k) (codec : CodecLaws c) where
    -- What was imported is exported again.
    -- The libraries keep their laws.
    pub export-init :
        (gs : GenesisState) (w w' : World k)
        → init_genesis k c gs w ≡ (ok tt, w')
        → export_genesis k c w' ≡ ok gs
    export-init gs w w' h = (export_genesis-get_params w' gs).1 (
        get_params-set_params k stores c codec gs.params w w'
          (sym (init_genesis-set_params gs w) ∙ h))

    -- A chain that starts from an export has the parameters of the exported chain, and, where its
    -- store holds no counter, a counter of 0, whatever the counter was: the export leaves it out.
    -- The libraries keep their laws.
    pub import_resets_counter :
        (w w₀ w₁ : World k) (gs : GenesisState)
        → export_genesis k c w ≡ ok gs
        → k.kv_get total_supply_key w₀.store ≡ ok none
        → init_genesis k c gs w₀ ≡ (ok tt, w₁)
        → (get_params k c w₁ ≡ get_params k c w) × (get_total_supply k w₁ ≡ ok (pos 0))
    import_resets_counter w w₀ w₁ gs out fresh h =
        let wrote = sym (init_genesis-set_params gs w₀) ∙ h in
        (
          get_params-set_params k stores c codec gs.params w₀ w₁ wrote
              ∙ sym ((export_genesis-get_params w gs).0 out),
          (get_total_supply-set_params k stores c gs.params w₀ w₁ wrote).0 ∙ no_counter k w₀ fresh,
        )
