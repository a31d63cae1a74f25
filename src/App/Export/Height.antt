-- ===== src/App/Export/Height.antt =====
-- The export as a whole: the allow list and the height.
use stable_coin.Prelude.{
  ◌⊎◌, inl, inr, ◌+◌, ◌%◌, ◌^◌, ◌≡◌, refl, ap, sym, Bytes, Bool, true, List, [], ◌∷◌, ◌++◌, Option,
  if◌then◌else◌, arith,
}
use stable_coin.Go.Outcome.{Error, Outcome, ok, err, panic, after-eq-ok, reading-eq-ok, ok_inj}
use stable_coin.Go.Action.{pure, fatal, for_each}
use stable_coin.App.Keepers.{Keepers}
use stable_coin.App.Export.{
  ExportedApp, check_allowed, prep_for_zero_height_genesis, export_app_state_and_validators,
}

outcome-cases : {A : Type 0} (r : Outcome A) → ((a : A) × (r ≡ ok a)) ⊎ (fatal r ≡ panic)
outcome-cases (ok a) = inl (a, refl)
outcome-cases (err e) = inr refl
outcome-cases panic = inr refl

module _ (k : Keepers) where
  check_allowed-bad :
      (addr : Bytes) (e : Error) (late early : List Bytes) (s : k.Store)
      → k.signing_validator_bytes addr ≡ err e
      → check_allowed k (early ++ (addr ∷ late)) s ≡ (panic, s)
  unfolding check_allowed for_each
  check_allowed-bad addr e late [] s h = rw h
  check_allowed-bad addr e late (a ∷ early) s h =
      let more = check_allowed-bad addr e late early s h in
      elim (outcome-cases (k.signing_validator_bytes a)) [
        | inl (x, good) ↦ rw good more
        | inr bad ↦ ground (arith, bad)
      ]

  -- An export for height zero with an allow list that holds a text which is no validator address
  -- panics before anything is changed.
  pub export_bad_address :
      (addr : Bytes) (e : Error) (early late modules : List Bytes) (s : k.Store)
      → k.signing_validator_bytes addr ≡ err e
      → export_app_state_and_validators k true (early ++ (addr ∷ late)) modules s ≡ (panic, s)
  unfolding export_app_state_and_validators prep_for_zero_height_genesis
  export_bad_address addr e early late modules s h = rw (check_allowed-bad addr e late early s h)

  pub export-height :
      (zero : Bool) (allowed modules : List Bytes) (s s' : k.Store) (app : ExportedApp k)
      (e : Option Error)
      → export_app_state_and_validators k zero allowed modules s ≡ (ok (app, e), s')
      → app.height ≡ (if zero then 0 else (k.last_block_height + 1) % 2 ^ 64)
  unfolding export_app_state_and_validators
  export-height zero allowed modules s s' app e h =
      let (_, s₁, _, h₁) =
        after-eq-ok
          ((if zero then prep_for_zero_height_genesis k k.last_block_height allowed else pure tt) s)
          _ h in
      let (gen, s₂, _, h₂) =
        after-eq-ok (k.export_genesis_for_modules k.last_block_height modules s₁) _ h₁ in
      let (text, _, h₃) = reading-eq-ok (k.marshal_indent gen) s₂ _ h₂ in
      let (written, s₃, _, h₄) = after-eq-ok (k.write_validators k.last_block_height s₂) _ h₃ in
      let (params, _, h₅) = reading-eq-ok (k.consensus_params k.last_block_height s₃) s₃ _ h₄ in
      ap (λ v. v.0.height) (sym (ok_inj (ap (λ r. r.0) h₅)))
