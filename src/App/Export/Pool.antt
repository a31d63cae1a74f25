-- ===== src/App/Export/Pool.antt =====
-- The second loop over the validators in "Handle fee distribution state": where the outstanding
-- rewards go.
use stable_coin.Prelude.{◌≡◌, refl, sym, ap, ◌∙◌, Bytes, Bool, false, List, [], ◌∷◌, bytes_eq}
use stable_coin.Go.Outcome.{Outcome, ok, err, panic, after-eq-ok, reading-eq-ok, ok_inj, ◌>>=◌}
use stable_coin.Go.Action.{fatal, fatal-eq-ok, or_die, or_die-eq-ok}
use stable_coin.Go.Map.{bytes_ne_sym}
use stable_coin.App.Keepers.{Keepers, Validator}
use stable_coin.App.Export.{reinitialize_validator}
use stable_coin.App.Export.Distribution.{
  DistributionLaws, visit_all, go_unless, with_outstanding, IsApart, AreDistinct, AreReset,
}

same_next :
    {A B : Type 0} (o : Outcome A) (f g : A → Outcome B)
    → ((a : A) → o ≡ ok a → f a ≡ g a)
    → (o >>= f) ≡ (o >>= g)
same_next (ok a) f g h = h a refl
same_next (err e) f g h = refl
same_next panic f g h = refl

module _ (k : Keepers) (laws : DistributionLaws k) where
  -- One round: the rewards of the validator are in the pool, and the others' are outstanding
  -- still.
  record Moved (v : Validator) (s s' : k.Store) : Type 0 where
    pub address : Bytes
    pub parsed : k.validator_bytes v.operator ≡ ok address
    pub rewards : k.DecCoins
    pub outstanding : k.get_outstanding_rewards 0 address s ≡ ok rewards
    pub pool : k.FeePool
    pub before : k.get_fee_pool 0 s ≡ ok pool
    pub after_it :
        k.get_fee_pool 0 s'
        ≡ ok (k.with_community_pool (k.add_dec_coins (k.community_pool pool) rewards) pool)
    pub reset : k.get_outstanding_rewards 0 address s' ≡ ok laws.no_coins
    pub others :
        (b : Bytes)
        → bytes_eq address b ≡ false
        → k.get_outstanding_rewards 0 b s' ≡ k.get_outstanding_rewards 0 b s

  reinitialize_validator-Moved :
      (v : Validator) (s s' : k.Store) (stop : Bool)
      → reinitialize_validator k 0 v s ≡ (ok stop, s')
      → (stop ≡ false) × Moved v s s'
  unfolding reinitialize_validator
  reinitialize_validator-Moved v s s' stop e =
      let (_, s₁, body, last) = after-eq-ok _ (λ _ x. (ok false, x)) e in
      let (a, ea, e₁) = reading-eq-ok (fatal (k.validator_bytes v.operator)) s _ body in
      let (r, er, e₂) = reading-eq-ok (fatal (k.get_outstanding_rewards 0 a s)) s _ e₁ in
      let (p, ep, e₃) = reading-eq-ok (fatal (k.get_fee_pool 0 s)) s _ e₂ in
      let pool = k.with_community_pool (k.add_dec_coins (k.community_pool p) r) p in
      let (_, s₂, set, e₄) =
        after-eq-ok (or_die (k.set_fee_pool 0 pool) s) (λ _. or_die (k.after_validator_created 0 a))
          e₃ in
      let stored = or_die-eq-ok (k.set_fee_pool 0 pool s) set in
      let created = or_die-eq-ok (k.after_validator_created 0 a s₂) e₄ in
      let end : s₁ ≡ s' = ap (λ x. x.1) last in
      (
        sym (ok_inj (ap (λ x. x.0) last)),
        record {
          address = a;
          parsed = fatal-eq-ok _ ea;
          rewards = r;
          outstanding = fatal-eq-ok _ er;
          pool = p;
          before = fatal-eq-ok _ ep;
          after_it =
              ap (k.get_fee_pool 0) (sym end)
              ∙ laws.pool-created a s₂ s₁ created
              ∙ laws.get-set pool s s₂ stored;
          reset = ap (k.get_outstanding_rewards 0 a) (sym end) ∙ laws.rewards-reset a s₂ s₁ created;
          others = λ b differs.
              ap (k.get_outstanding_rewards 0 b) (sym end)
              ∙ laws.rewards-created a b s₂ s₁ created differs
              ∙ laws.rewards-set pool s s₂ b stored;
        },
      )

  outstanding-Apart :
      (a : Bytes) (s s' : k.Store) (vs : List Validator) (c : k.DecCoins)
      → ((b : Bytes)
          → bytes_eq a b ≡ false
          → k.get_outstanding_rewards 0 b s' ≡ k.get_outstanding_rewards 0 b s)
      → IsApart k a vs
      → with_outstanding k s' vs c ≡ with_outstanding k s vs c
  unfolding with_outstanding
  outstanding-Apart a s s' [] c others tt = refl
  outstanding-Apart a s s' (v ∷ vs) c others (differs, rest) =
      same_next (k.validator_bytes v.operator) _ _ (λ b e.
        ap (λ o. o >>= λ r. with_outstanding k s' vs (k.add_dec_coins c r)) (others b (differs b e))
        ∙ same_next (k.get_outstanding_rewards 0 b s) _ _
            (λ r _. outstanding-Apart a s s' vs (k.add_dec_coins c r) others rest))

  first_round :
      (v : Validator) (vs : List Validator) (s s' : k.Store)
      → visit_all (reinitialize_validator k 0) (v ∷ vs) s ≡ (ok tt, s')
      → ((s₁ : k.Store) × Moved v s s₁
          × (visit_all (reinitialize_validator k 0) vs s₁ ≡ (ok tt, s')))
  unfolding visit_all
  first_round v vs s s' e =
      let (stop, s₁, first, rest) =
        after-eq-ok (reinitialize_validator k 0 v s)
          (go_unless (visit_all (reinitialize_validator k 0) vs)) e in
      let (goes_on, m) = reinitialize_validator-Moved v s s₁ stop first in
      (
        s₁,
        m,
        ap (λ b. go_unless (visit_all (reinitialize_validator k 0) vs) b s₁) (sym goes_on) ∙ rest,
      )

  -- The later rounds leave the rewards of an address alone that none of their validators has.
  visit_all-Apart :
      (a : Bytes) (vs : List Validator) (s s' : k.Store)
      → IsApart k a vs
      → visit_all (reinitialize_validator k 0) vs s ≡ (ok tt, s')
      → k.get_outstanding_rewards 0 a s' ≡ k.get_outstanding_rewards 0 a s
  unfolding visit_all
  visit_all-Apart a [] s s' apart e = ap (k.get_outstanding_rewards 0 a) (sym (ap (λ x. x.1) e))
  visit_all-Apart a (v ∷ vs) s s' (differs, apart) e =
      let (s₁, m, next) = first_round v vs s s' e in
      visit_all-Apart a vs s₁ s' apart next
      ∙ m.others a (bytes_ne_sym a m.address (differs m.address m.parsed))

  collect :
      (vs : List Validator) (s s' : k.Store) (p : k.FeePool)
      → AreDistinct k vs
      → k.get_fee_pool 0 s ≡ ok p
      → visit_all (reinitialize_validator k 0) vs s ≡ (ok tt, s')
      → (p' : k.FeePool) × (k.get_fee_pool 0 s' ≡ ok p')
        × (with_outstanding k s vs (k.community_pool p) ≡ ok (k.community_pool p'))
        × AreReset k laws.no_coins s' vs
  unfolding visit_all with_outstanding
  collect [] s s' p distinct pool e =
      (p, ap (k.get_fee_pool 0) (sym (ap (λ x. x.1) e)) ∙ pool, refl, tt)
  collect (v ∷ vs) s s' p (apart, distinct) pool e =
      let (s₁, m, next) = first_round v vs s s' e in
      let (p', seen, total, settled) = collect vs s₁ s' _ distinct m.after_it next in
      let same_pool : m.pool ≡ p = ok_inj (sym m.before ∙ pool) in
      (
        p',
        seen,
        rw (m.parsed, m.outstanding)
            (ap (λ x. with_outstanding k s vs (k.add_dec_coins (k.community_pool x) m.rewards))
                (sym same_pool)
              ∙ sym (
                  outstanding-Apart m.address s s₁ vs
                    (k.add_dec_coins (k.community_pool m.pool) m.rewards) m.others
                    (apart m.address m.parsed))
              ∙ ap (with_outstanding k s₁ vs) (
                  sym (laws.pool-with (k.add_dec_coins (k.community_pool m.pool) m.rewards) m.pool))
              ∙ total),
        (
          λ a parsed.
              ap (λ x. k.get_outstanding_rewards 0 x s') (ok_inj (sym parsed ∙ m.parsed))
              ∙ visit_all-Apart m.address vs s₁ s' (apart m.address m.parsed) next
              ∙ m.reset,
          settled,
        ),
      )

  -- When the second loop over the validators ends, the outstanding rewards have moved to the
  -- community pool: the pool holds what it held before, and on top of it the rewards that were
  -- outstanding for each validator when the loop began, and for each validator nothing is
  -- outstanding any more. No two validators have one address, and the distribution keeper keeps
  -- its laws.
  pub outstanding_to_pool :
      (s s' : k.Store) (p : k.FeePool)
      → AreDistinct k (laws.validators s)
      → k.get_fee_pool 0 s ≡ ok p
      → k.iterate_validators 0 (reinitialize_validator k 0) s ≡ (ok tt, s')
      → (p' : k.FeePool) × (k.get_fee_pool 0 s' ≡ ok p')
        × (with_outstanding k s (laws.validators s) (k.community_pool p) ≡ ok (k.community_pool p'))
        × AreReset k laws.no_coins s' (laws.validators s)
  outstanding_to_pool s s' p distinct pool e =
      collect (laws.validators s) s s' p distinct pool
        (sym (laws.iterate (reinitialize_validator k 0) s) ∙ e)
