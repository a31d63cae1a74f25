-- ===== src/Keeper/Server/Effects.antt =====
-- What the second part of a handler has done when it returns without an error.
use stable_coin.Prelude.{◌≡◌, refl, ap, ◌∙◌, Bool, true, Bytes, some, false, if◌then◌else◌}
use stable_coin.Prelude.Int.{ℤ, ◌+ℤ◌, ◌-ℤ◌}
use stable_coin.Go.Outcome.{
  Outcome, Error, err, ok, reading-eq-ok, after-eq-ok, or_panic-eq-ok, or_panic,
}
use stable_coin.Sdk.{Sdk, SetLaws, BankLaws, amount_of}
use stable_coin.Types.Params.{module_name}
use stable_coin.Keeper.State.{World, on_bank, get_total_supply, set_total_supply}
use stable_coin.Keeper.State.Supply.{on_bank-eq-ok, set_total_supply-eq-ok}
use stable_coin.Keeper.Server.{MintPlan, BurnPlan, mint_effects, burn_effects}

if-eq-ok :
    {S B : Type 0} (t : Bool) (e : Error) (s : S) (r : Outcome B × S) {b : B} {s' : S}
    → (if t then (err e, s) else r) ≡ (ok b, s')
    → (t ≡ false) × (r ≡ (ok b, s'))
if-eq-ok true e s r h = cc
if-eq-ok false e s r h = (refl, h)

module _ (k : Sdk) (bank : BankLaws k) (sets : SetLaws k) where
  pub mint_effects-ok :
      (plan : MintPlan) (w w' : World k)
      → mint_effects k plan w ≡ (ok tt, w')
      → (sum : ℤ) × (w₁ : World k) × (k.int_add plan.current_supply plan.amount ≡ some sum)
        × (w₁.store ≡ w.store)
        × (set_total_supply k sum w₁ ≡ (ok tt, w'))
        × ((d : Bytes) → k.supply_of d w'.bank ≡ k.supply_of d w.bank +ℤ amount_of d plan.coins)
  unfolding mint_effects
  mint_effects-ok plan w w' h =
      let (_, w₁, e₁, h₁) = after-eq-ok (on_bank k (k.mint_coins module_name plan.coins) w) _ h in
      let (_, w₂, e₂, h₂) =
        after-eq-ok (on_bank k (k.send_module_to_account module_name plan.to plan.coins) w₁) _ h₁ in
      let (sum, e₃, h₃) =
        reading-eq-ok (or_panic (k.int_add plan.current_supply plan.amount)) w₂ _ h₂ in
      let (b₁, s₁) = on_bank-eq-ok k (k.mint_coins module_name plan.coins) w w₁ e₁ in
      let (b₂, s₂) =
        on_bank-eq-ok k (k.send_module_to_account module_name plan.to plan.coins) w₁ w₂ e₂ in
      let (_, b₃) = set_total_supply-eq-ok k sets sum w₂ w' h₃ in
      (
        sum,
        w₂,
        or_panic-eq-ok _ e₃,
        s₂ ∙ s₁,
        h₃,
        λ d.
            ap (k.supply_of d) b₃
            ∙ bank.supply-send_out _ _ _ _ _ d b₂
            ∙ bank.supply-mint _ _ _ _ d b₁,
      )

  pub burn_effects-ok :
      (plan : BurnPlan) (w w' : World k)
      → burn_effects k plan w ≡ (ok tt, w')
      → (current : ℤ) × (rest : ℤ) × (w₁ : World k) × (get_total_supply k w₁ ≡ ok current)
        × (k.int_lt current plan.amount ≡ false)
        × (k.int_sub current plan.amount ≡ some rest)
        × (w₁.store ≡ w.store)
        × (set_total_supply k rest w₁ ≡ (ok tt, w'))
        × ((d : Bytes) → k.supply_of d w'.bank ≡ k.supply_of d w.bank -ℤ amount_of d plan.coins)
  unfolding burn_effects
  burn_effects-ok plan w w' h =
      let (_, w₁, e₁, h₁) =
        after-eq-ok (on_bank k (k.send_account_to_module plan.from module_name plan.coins) w) _ h in
      let (_, w₂, e₂, h₂) = after-eq-ok (on_bank k (k.burn_coins module_name plan.coins) w₁) _ h₁ in
      let (current, e₃, h₃) = reading-eq-ok (get_total_supply k w₂) w₂ _ h₂ in
      let (enough, h₄) = if-eq-ok (k.int_lt current plan.amount) _ _ _ h₃ in
      let (rest, e₅, h₅) = reading-eq-ok (or_panic (k.int_sub current plan.amount)) w₂ _ h₄ in
      let (b₁, s₁) =
        on_bank-eq-ok k (k.send_account_to_module plan.from module_name plan.coins) w w₁ e₁ in
      let (b₂, s₂) = on_bank-eq-ok k (k.burn_coins module_name plan.coins) w₁ w₂ e₂ in
      let (_, b₃) = set_total_supply-eq-ok k sets rest w₂ w' h₅ in
      (
        current,
        rest,
        w₂,
        e₃,
        enough,
        or_panic-eq-ok _ e₅,
        s₂ ∙ s₁,
        h₅,
        λ d.
            ap (k.supply_of d) b₃
            ∙ bank.supply-burn _ _ _ _ d b₂
            ∙ ap (λ x. x -ℤ amount_of d plan.coins) (bank.supply-send_in _ _ _ _ _ d b₁),
      )
