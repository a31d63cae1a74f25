-- ===== src/App/Modules/Provided.antt =====
-- The order lists against the modules that there are.
use stable_coin.Prelude.{◌≡◌, refl, true, ◌++◌, leb, List, [], ◌∷◌, map}
use stable_coin.App.Config.{configured_modules}
use stable_coin.App.Modules.{
  ModuleName, module_index, occurrences, pre_blockers, begin_blockers, end_blockers,
  init_genesis_order, ibc_modules, runtime, upgrade, auth, mint, distribution, slashing, evidence,
  staking, authz, epochs, ibc_core, stablecoin, gov, feegrant, group, consensus, bank, genutil,
  vesting, nft, circuit, transfer, ica, tx, params, tendermint, solomachine,
}

abbrev pub configured_names : List ModuleName
configured_names = map (λ m. m.name) configured_modules

-- The modules without a genesis.
abbrev pub stateless : List ModuleName
stateless = runtime ∷ tx ∷ params ∷ tendermint ∷ solomachine ∷ []

-- Every module is added to the application exactly once, by its configuration or by the
-- registration of the IBC modules. Its genesis is imported exactly once, unless it is the runtime,
-- the transactions' configuration, the parameters or a light client, whose genesis is not
-- imported; and it stands at most once in the order of the pre-blockers, of the begin-blockers and
-- of the end-blockers.
module_order_lem :
    (m : ModuleName)
    → (occurrences m (init_genesis_order ++ stateless)
        ≡ occurrences m (configured_names ++ ibc_modules))
      × (occurrences m (configured_names ++ ibc_modules) ≡ 1)
      × (leb (occurrences m pre_blockers) 1 ≡ true)
      × (leb (occurrences m begin_blockers) 1 ≡ true)
      × (leb (occurrences m end_blockers) 1 ≡ true)
unfolding occurrences module_index pre_blockers begin_blockers end_blockers init_genesis_order
    configured_modules ibc_modules
module_order_lem runtime = (refl, refl, refl, refl, refl)
module_order_lem upgrade = (refl, refl, refl, refl, refl)
module_order_lem auth = (refl, refl, refl, refl, refl)
module_order_lem mint = (refl, refl, refl, refl, refl)
module_order_lem distribution = (refl, refl, refl, refl, refl)
module_order_lem slashing = (refl, refl, refl, refl, refl)
module_order_lem evidence = (refl, refl, refl, refl, refl)
module_order_lem staking = (refl, refl, refl, refl, refl)
module_order_lem authz = (refl, refl, refl, refl, refl)
module_order_lem epochs = (refl, refl, refl, refl, refl)
module_order_lem ibc_core = (refl, refl, refl, refl, refl)
module_order_lem stablecoin = (refl, refl, refl, refl, refl)
module_order_lem gov = (refl, refl, refl, refl, refl)
module_order_lem feegrant = (refl, refl, refl, refl, refl)
module_order_lem group = (refl, refl, refl, refl, refl)
module_order_lem consensus = (refl, refl, refl, refl, refl)
module_order_lem bank = (refl, refl, refl, refl, refl)
module_order_lem genutil = (refl, refl, refl, refl, refl)
module_order_lem vesting = (refl, refl, refl, refl, refl)
module_order_lem nft = (refl, refl, refl, refl, refl)
module_order_lem circuit = (refl, refl, refl, refl, refl)
module_order_lem transfer = (refl, refl, refl, refl, refl)
module_order_lem ica = (refl, refl, refl, refl, refl)
module_order_lem tx = (refl, refl, refl, refl, refl)
module_order_lem params = (refl, refl, refl, refl, refl)
module_order_lem tendermint = (refl, refl, refl, refl, refl)
module_order_lem solomachine = (refl, refl, refl, refl, refl)
