-- ===== src/App/Modules.antt =====
-- The orders of the modules in stbchain/app/app_config.go, and the modules that registerIBCModules
-- of ibc.go adds.
pub mod Provided
use stable_coin.Prelude.{ℕ, Bool, true, false, List, [], ◌∷◌, ◌++◌, ◌+◌, ◌==◌, if◌then◌else◌}

-- The module names, which are constants of the modules' packages.
pub data ModuleName : Type 0 where
  runtime upgrade auth mint distribution slashing evidence staking authz epochs ibc_core stablecoin
        gov feegrant :
      ModuleName
  group consensus bank genutil vesting nft circuit transfer ica tx params tendermint solomachine :
      ModuleName

unfoldable pub module_index : ModuleName → ℕ
module_index runtime = 0
module_index upgrade = 1
module_index auth = 2
module_index mint = 3
module_index distribution = 4
module_index slashing = 5
module_index evidence = 6
module_index staking = 7
module_index authz = 8
module_index epochs = 9
module_index ibc_core = 10
module_index stablecoin = 11
module_index gov = 12
module_index feegrant = 13
module_index group = 14
module_index consensus = 15
module_index bank = 16
module_index genutil = 17
module_index vesting = 18
module_index nft = 19
module_index circuit = 20
module_index transfer = 21
module_index ica = 22
module_index tx = 23
module_index params = 24
module_index tendermint = 25
module_index solomachine = 26

unfoldable pub occurrences : ModuleName → List ModuleName → ℕ
occurrences m [] = 0
occurrences m (n ∷ ns) =
    let rest = occurrences m ns in if module_index m == module_index n then rest + 1 else rest

unfoldable pub pre_blockers : List ModuleName
pre_blockers = upgrade ∷ auth ∷ []

unfoldable pub begin_blockers : List ModuleName
begin_blockers =
    mint ∷ distribution ∷ slashing ∷ evidence ∷ staking ∷ authz ∷ epochs ∷ ibc_core ∷ stablecoin
    ∷ []

unfoldable pub end_blockers : List ModuleName
end_blockers = gov ∷ staking ∷ feegrant ∷ group ∷ stablecoin ∷ []

unfoldable pub init_genesis_order : List ModuleName
init_genesis_order =
    consensus ∷ auth ∷ bank ∷ distribution ∷ staking ∷ slashing ∷ gov ∷ mint ∷ genutil ∷ evidence
    ∷ authz ∷ feegrant ∷ vesting ∷ nft ∷ group ∷ upgrade ∷ circuit ∷ epochs ∷ ibc_core ∷ transfer
    ∷ ica ∷ stablecoin ∷ []

-- RegisterModules of registerIBCModules.
unfoldable pub ibc_modules : List ModuleName
ibc_modules = ibc_core ∷ transfer ∷ ica ∷ tendermint ∷ solomachine ∷ []
