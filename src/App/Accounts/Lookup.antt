-- ===== src/App/Accounts/Lookup.antt =====
-- What the maps hold.
use stable_coin.Prelude.{
  ℕ, Bool-cases, inl, inr, ◌≡◌, ◌↔◌, refl, ap, ◌∙◌, sym, true, false, ◌||◌, List, [], ◌∷◌, Option,
  none, some, ◌==◌, if◌then◌else◌, arith,
}
use stable_coin.App.Accounts.{
  AccountName, name_index, name_eq, Permission, AccountPermission, module_acc_perms,
  block_acc_addrs, NameMap, set_name, get_name, dup_perms, get_macc_perms, set_all,
  blocked_addresses, fee_collector, distribution, mint, bonded_pool, not_bonded_pool, gov, nft,
  transfer, ica, stablecoin, minter, burner, staking,
}

-- The permissions of the last entry for the name, `old` where there is none.
unfoldable pub last_for :
    AccountName → List AccountPermission → Option (List Permission) → Option (List Permission)
last_for n [] old = old
last_for n (p ∷ ps) old = last_for n ps (if name_eq n p.account then some p.permissions else old)

name_of : ℕ → AccountName
name_of n =
    if n == 0
    then fee_collector
    else if n == 1
    then distribution
    else if n == 2
    then mint
    else if n == 3
    then bonded_pool
    else if n == 4
    then not_bonded_pool
    else if n == 5
    then gov
    else if n == 6
    then nft
    else if n == 7
    then transfer
    else if n == 8
    then ica
    else stablecoin

name_of-name_index : (a : AccountName) → name_of (name_index a) ≡ a
unfolding name_of name_index
name_of-name_index fee_collector = refl
name_of-name_index distribution = refl
name_of-name_index mint = refl
name_of-name_index bonded_pool = refl
name_of-name_index not_bonded_pool = refl
name_of-name_index gov = refl
name_of-name_index nft = refl
name_of-name_index transfer = refl
name_of-name_index ica = refl
name_of-name_index stablecoin = refl

name_eq→eq : (a b : AccountName) → name_eq a b ≡ true → a ≡ b
unfolding name_eq
name_eq→eq a b h =
    let same : name_index a ≡ name_index b = ground arith in
    sym (name_of-name_index a) ∙ ap name_of same ∙ name_of-name_index b

module _ {A : Type 0} where
  get_name-set_name :
      (n a : AccountName) (v : A) (m : NameMap A)
      → get_name n (set_name a v m) ≡ (if name_eq n a then some v else get_name n m)
  unfolding get_name set_name
  get_name-set_name n a v [] = refl
  get_name-set_name n a v (e ∷ m) = elim (Bool-cases (name_eq a e.0)) [
    | inl same ↦
        let eq : name_eq n a ≡ name_eq n e.0 = ap (name_eq n) (name_eq→eq a e.0 same) in
        rw same (ground (arith, eq))
    | inr other ↦
        let apart : name_eq n a ≡ true → name_eq n e.0 ≡ false =
          λ h. ap (λ x. name_eq x e.0) (name_eq→eq n a h) ∙ other in
        rw other (ground (arith, apart, get_name-set_name n a v m))
  ]

get_name-dup_perms :
    (n : AccountName) (ps : List AccountPermission) (dup : NameMap (List Permission))
    → get_name n (dup_perms ps dup) ≡ last_for n ps (get_name n dup)
unfolding dup_perms last_for
get_name-dup_perms n [] dup = refl
get_name-dup_perms n (p ∷ ps) dup =
    get_name-dup_perms n ps (set_name p.account p.permissions dup)
    ∙ ap (last_for n ps) (get_name-set_name n p.account p.permissions dup)

macc_perms_lem :
    (n : AccountName)
    → (get_name n get_macc_perms ≡ last_for n module_acc_perms none)
      × (name_eq n stablecoin ≡ true
          → get_name n get_macc_perms ≡ some (minter ∷ burner ∷ staking ∷ []))
unfolding get_macc_perms module_acc_perms last_for get_name name_eq name_index
macc_perms_lem n =
    let last = get_name-dup_perms n module_acc_perms [] in
    (last, λ e. last ∙ ap (λ x. last_for x module_acc_perms none) (name_eq→eq n stablecoin e))

unblocked_iff :
    (n : AccountName)
    → (get_name n blocked_addresses ≡ none)
      ↔ ((name_eq n gov || name_eq n transfer || name_eq n ica || name_eq n stablecoin) ≡ true)
unfolding blocked_addresses block_acc_addrs set_all set_name get_name name_eq name_index
unblocked_iff fee_collector = (λ e. cc, λ e. cc)
unblocked_iff distribution = (λ e. cc, λ e. cc)
unblocked_iff mint = (λ e. cc, λ e. cc)
unblocked_iff bonded_pool = (λ e. cc, λ e. cc)
unblocked_iff not_bonded_pool = (λ e. cc, λ e. cc)
unblocked_iff nft = (λ e. cc, λ e. cc)
unblocked_iff gov = (λ e. refl, λ e. refl)
unblocked_iff transfer = (λ e. refl, λ e. refl)
unblocked_iff ica = (λ e. refl, λ e. refl)
unblocked_iff stablecoin = (λ e. refl, λ e. refl)

-- Every name has the permissions of its last entry in moduleAccPerms: the stablecoin account,
-- which has two entries, may stake as well as mint and burn. The accounts that may receive funds,
-- since BlockedAddresses lacks them, are those of the governance, transfer, interchain accounts
-- and stablecoin modules.
pub module_accounts_lem :
    (n : AccountName)
    → (get_name n get_macc_perms ≡ last_for n module_acc_perms none)
      × (name_eq n stablecoin ≡ true
          → get_name n get_macc_perms ≡ some (minter ∷ burner ∷ staking ∷ []))
      × ((get_name n blocked_addresses ≡ none)
          ↔ ((name_eq n gov || name_eq n transfer || name_eq n ica || name_eq n stablecoin) ≡ true))
module_accounts_lem n = let (last, twice) = macc_perms_lem n in (last, twice, unblocked_iff n)
