-- ===== src/Module/Genesis.antt =====
-- The module's genesis as bytes.
use stable_coin.Prelude.{◌≡◌, Bytes}
use stable_coin.Go.Outcome.{Outcome, ok, err, panic, >>=-eq-ok}
use stable_coin.Sdk.{Sdk, StoreLaws}
use stable_coin.Types.Params.{ParamsCodec, CodecLaws}
use stable_coin.Types.Genesis.{GenesisState}
use stable_coin.Keeper.State.{World, init_genesis, export_genesis}
use stable_coin.Keeper.State.Genesis.{export-init}
use stable_coin.Module.{JsonCodec, must, must_after, init_module_genesis, export_module_genesis}

-- What was marshalled is unmarshalled again.
pub record JsonLaws (json : JsonCodec) : Type 0 where
  pub unmarshal-marshal :
      (gs : GenesisState) (bz : Bytes)
      → json.marshal_json gs ≡ ok bz
      → json.unmarshal_json bz ≡ ok gs

must-eq-ok : {A : Type 0} (r : Outcome A) {a : A} → must r ≡ ok a → r ≡ ok a
must-eq-ok (ok value) h = h
must-eq-ok (err e) h = cc
must-eq-ok panic h = cc

must_after-eq-ok :
    {S A : Type 0} (r : Outcome A × S) {a : A} {s : S} → must_after r ≡ (ok a, s) → r ≡ (ok a, s)
must_after-eq-ok (ok value, s) h = h
must_after-eq-ok (err e, s) h = cc
must_after-eq-ok (panic, s) h = cc

module _ (k : Sdk) (json : JsonCodec) (laws : JsonLaws json) (c : ParamsCodec)
    (stores : StoreLaws k) (codec : CodecLaws c) where
  -- The bytes that a chain exports for the module start a chain that exports the same bytes. The
  -- store, the JSON codec and the codec of the parameters keep their laws.
  pub module_export-init :
      (w w₀ w₁ : World k) (bz : Bytes)
      → export_module_genesis k json c w ≡ ok bz
      → init_module_genesis k json c bz w₀ ≡ (ok tt, w₁)
      → export_module_genesis k json c w₁ ≡ ok bz
  unfolding export_module_genesis init_module_genesis
  module_export-init w w₀ w₁ bz out h =
      let (gs, exported, h₁) = >>=-eq-ok (must (export_genesis k c w)) _ out in
      let read = laws.unmarshal-marshal gs bz (must-eq-ok (json.marshal_json gs) h₁) in
      let started = must_after-eq-ok (init_genesis k c gs w₀) (rw read at h) in
      rw (export-init k c stores codec gs w₀ w₁ started) h₁
