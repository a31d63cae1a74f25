-- ===== src/App/Accounts.antt =====
-- The accounts of the modules: the lists of stbchain/app/app_config.go and the maps of app.go.
pub mod Lookup
use stable_coin.Prelude.{
  ℕ, Bool, true, false, List, [], ◌∷◌, Option, none, some, length, ltb, ◌==◌, if◌then◌else◌,
}

-- The account names of app_config.go, which are constants of the modules' packages. The imports
-- stablecointypes and stablecoinmoduletypes are one package.
pub data AccountName : Type 0 where
  fee_collector distribution mint bonded_pool not_bonded_pool gov nft transfer ica stablecoin :
      AccountName

unfoldable pub name_index : AccountName → ℕ
name_index fee_collector = 0
name_index distribution = 1
name_index mint = 2
name_index bonded_pool = 3
name_index not_bonded_pool = 4
name_index gov = 5
name_index nft = 6
name_index transfer = 7
name_index ica = 8
name_index stablecoin = 9

unfoldable pub name_eq : AccountName → AccountName → Bool
name_eq a b = name_index a == name_index b

-- authtypes.Minter, Burner and Staking; stakingtypes.ModuleName is the text of Staking.
pub data Permission : Type 0 where
  minter burner staking : Permission

pub record AccountPermission : Type 0 where
  pub account : AccountName
  pub permissions : List Permission

abbrev entry : AccountName → List Permission → AccountPermission
entry a ps = record { account = a; permissions = ps }

unfoldable pub module_acc_perms : List AccountPermission
module_acc_perms =
    entry fee_collector []
    ∷ entry distribution []
    ∷ entry mint (minter ∷ [])
    ∷ entry bonded_pool (burner ∷ staking ∷ [])
    ∷ entry not_bonded_pool (burner ∷ staking ∷ [])
    ∷ entry gov (burner ∷ [])
    ∷ entry nft []
    ∷ entry transfer (minter ∷ burner ∷ [])
    ∷ entry ica []
    ∷ entry stablecoin (minter ∷ burner ∷ [])
    ∷ entry stablecoin (minter ∷ burner ∷ staking ∷ [])
    ∷ []

unfoldable pub block_acc_addrs : List AccountName
block_acc_addrs = fee_collector ∷ distribution ∷ mint ∷ bonded_pool ∷ not_bonded_pool ∷ nft ∷ []

-- A map keyed by names, each name once.
abbrev pub NameMap : Type 0 → Type 0
NameMap A = List (AccountName × A)

module _ {A : Type 0} where
  -- `m[name] = value`
  unfoldable pub set_name : AccountName → A → NameMap A → NameMap A
  set_name n v [] = (n, v) ∷ []
  set_name n v (e ∷ m) = if name_eq n e.0 then (n, v) ∷ m else e ∷ set_name n v m

  unfoldable pub get_name : AccountName → NameMap A → Option A
  get_name n [] = none
  get_name n (e ∷ m) = if name_eq n e.0 then some e.1 else get_name n m

unfoldable pub dup_perms :
    List AccountPermission → NameMap (List Permission) → NameMap (List Permission)
dup_perms [] dup = dup
dup_perms (p ∷ ps) dup = dup_perms ps (set_name p.account p.permissions dup)

-- GetMaccPerms
unfoldable pub get_macc_perms : NameMap (List Permission)
get_macc_perms = dup_perms module_acc_perms []

unfoldable pub set_all : List AccountName → NameMap Bool → NameMap Bool
set_all [] result = result
set_all (a ∷ addrs) result = set_all addrs (set_name a true result)

-- `for addr := range GetMaccPerms() { result[addr] = true }`, in any order of the keys.
abbrev range_keys : {A : Type 0} → NameMap A → NameMap Bool → NameMap Bool
range_keys [] result = result
range_keys (e ∷ m) result = range_keys m (set_name e.0 true result)

-- BlockedAddresses
unfoldable pub blocked_addresses : NameMap Bool
blocked_addresses =
    if ltb 0 (length block_acc_addrs)
    then set_all block_acc_addrs []
    else range_keys get_macc_perms []
