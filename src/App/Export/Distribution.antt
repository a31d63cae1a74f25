-- ===== src/App/Export/Distribution.antt =====
-- The distribution keeper that the second loop over the validators works on: its laws, and the
-- rewards that are outstanding for the validators.
use stable_coin.Prelude.{◌≡◌, Bytes, Bool, true, false, List, [], ◌∷◌, bytes_eq}
use stable_coin.Go.Outcome.{Outcome, ok, Done, Action, after, ◌>>=◌}
use stable_coin.App.Keepers.{Keepers, Validator}

-- A callback on each validator, until it says stop.
abbrev pub go_unless : {S : Type 0} → Action S Done → Bool → Action S Done
go_unless rest true s = (ok tt, s)
go_unless rest false s = rest s

unfoldable pub visit_all :
    {S : Type 0} → (Validator → Action S Bool) → List Validator → Action S Done
visit_all f [] s = (ok tt, s)
visit_all f (v ∷ vs) s = after (f v s) (go_unless (visit_all f vs))

-- The distribution keeper: IterateValidators runs through the validators of the store that it
-- starts on. The fee pool that was set is read back, and setting it leaves the outstanding rewards
-- alone. AfterValidatorCreated sets those of its validator to nothing, and leaves the fee pool
-- and the other validators' alone.
pub record DistributionLaws (k : Keepers) : Type 0 where
  pub validators : k.Store → List Validator
  pub iterate :
      (f : Validator → Action k.Store Bool) (s : k.Store)
      → k.iterate_validators 0 f s ≡ visit_all f (validators s) s
  pub pool-with :
      (c : k.DecCoins) (p : k.FeePool) → k.community_pool (k.with_community_pool c p) ≡ c
  pub get-set :
      (p : k.FeePool) (s s' : k.Store)
      → k.set_fee_pool 0 p s ≡ (ok tt, s')
      → k.get_fee_pool 0 s' ≡ ok p
  pub rewards-set :
      (p : k.FeePool) (s s' : k.Store) (a : Bytes)
      → k.set_fee_pool 0 p s ≡ (ok tt, s')
      → k.get_outstanding_rewards 0 a s' ≡ k.get_outstanding_rewards 0 a s
  pub pool-created :
      (a : Bytes) (s s' : k.Store)
      → k.after_validator_created 0 a s ≡ (ok tt, s')
      → k.get_fee_pool 0 s' ≡ k.get_fee_pool 0 s
  pub no_coins : k.DecCoins
  pub rewards-reset :
      (a : Bytes) (s s' : k.Store)
      → k.after_validator_created 0 a s ≡ (ok tt, s')
      → k.get_outstanding_rewards 0 a s' ≡ ok no_coins
  pub rewards-created :
      (a b : Bytes) (s s' : k.Store)
      → k.after_validator_created 0 a s ≡ (ok tt, s')
      → bytes_eq a b ≡ false
      → k.get_outstanding_rewards 0 b s' ≡ k.get_outstanding_rewards 0 b s

-- The coins `c` and the rewards that are outstanding in `s` for each of the validators.
unfoldable pub with_outstanding :
    (k : Keepers) → k.Store → List Validator → k.DecCoins → Outcome k.DecCoins
with_outstanding k s [] c = ok c
with_outstanding k s (v ∷ vs) c = do
  a ← k.validator_bytes v.operator
  r ← k.get_outstanding_rewards 0 a s
  with_outstanding k s vs (k.add_dec_coins c r)

-- No two validators have one address.
abbrev pub IsApart : Keepers → Bytes → List Validator → Type 0
IsApart k a [] = Done
IsApart k a (v ∷ vs) =
    ((b : Bytes) → k.validator_bytes v.operator ≡ ok b → bytes_eq a b ≡ false) × IsApart k a vs

abbrev pub AreDistinct : Keepers → List Validator → Type 0
AreDistinct k [] = Done
AreDistinct k (v ∷ vs) =
    ((a : Bytes) → k.validator_bytes v.operator ≡ ok a → IsApart k a vs) × AreDistinct k vs

-- The rewards that are outstanding for each validator are `none_left`.
abbrev pub AreReset : (k : Keepers) → k.DecCoins → k.Store → List Validator → Type 0
AreReset k none_left s [] = Done
AreReset k none_left s (v ∷ vs) =
    ((a : Bytes)
      → k.validator_bytes v.operator ≡ ok a
      → k.get_outstanding_rewards 0 a s ≡ ok none_left)
    × AreReset k none_left s vs
