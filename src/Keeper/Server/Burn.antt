-- ===== src/Keeper/Server/Burn.antt =====
-- What a successful Burn has done, when it goes through, and what a short counter leaves behind.
use stable_coin.Prelude.{
  ◌≡◌, refl, sym, ap, ◌∙◌, Bytes, some, true, false, bytes_eq, bytes_eq_iff, arith,
}
use stable_coin.Prelude.Int.{ℤ, ◌-ℤ◌, ◌≤ℤ◌, ◌<ℤ◌}
use stable_coin.Go.Outcome.{ok, err, reading-eq-ok, supply_underflow}
use stable_coin.Sdk.{Sdk, MathLaws, CoinLaws, BankLaws, StoreLaws, SetLaws, amount_of}
use stable_coin.Types.Params.{ParamsCodec, module_name, total_supply_key}
use stable_coin.Types.Messages.{MsgBurn}
use stable_coin.Keeper.State.{World, get_params, get_total_supply, set_total_supply}
use stable_coin.Keeper.State.Supply.{
  get_total_supply-set, get_params-set_total_supply, get_params-store, get_total_supply-store,
}
use stable_coin.Keeper.Server.{BurnPlan, one_coin, positive_amount, burn_checks, burn_effects, burn}
use stable_coin.Keeper.Server.Checks.{BurnGranted, burn_checks-ok}
use stable_coin.Keeper.Server.Effects.{burn_effects-ok}

-- What holds after a burn from `w` to `w'`.
pub record BurnDone (k : Sdk) (c : ParamsCodec) (msg : MsgBurn) (w w' : World k) : Type 0 where
  pub plan : BurnPlan
  pub granted : BurnGranted k c msg w plan
  pub current : ℤ
  pub counter : get_total_supply k w ≡ ok current
  pub covered : plan.amount ≤ℤ current
  pub counted : get_total_supply k w' ≡ ok (current -ℤ plan.amount)
  pub same_params : get_params k c w' ≡ get_params k c w
  pub burned : (d : Bytes) → k.supply_of d w'.bank ≡ k.supply_of d w.bank -ℤ amount_of d plan.coins

module _ (k : Sdk) (c : ParamsCodec) (math : MathLaws k) (coin : CoinLaws k) (bank : BankLaws k)
    (stores : StoreLaws k) (sets : SetLaws k) where
  -- A successful Burn was granted to the issuer while the module was not paused, for a positive
  -- amount of at most the counter. It has taken the amount off the counter and the coin off the
  -- bank's supply, and kept the parameters. The libraries keep their laws.
  pub burn-BurnDone :
      (msg : MsgBurn) (w w' : World k) → burn k c msg w ≡ (ok tt, w') → BurnDone k c msg w w'
  unfolding burn
  burn-BurnDone msg w w' h =
      let (plan, e, h₁) = reading-eq-ok (burn_checks k c msg w) w (burn_effects k) h in
      let (current, rest, w₁, read, enough, sub, same, write, burned) =
        burn_effects-ok k bank sets plan w w' h₁ in
      let (rest_eq, fits) = math.sub_lem _ _ rest sub in
      record {
        plan = plan;
        granted = burn_checks-ok k math coin c msg w plan e;
        current = current;
        counter = get_total_supply-store k w w₁ (sym same) ∙ read;
        covered = grind (arith, math.lt_lem current plan.amount, enough);
        counted = get_total_supply-set k math stores sets rest w₁ w' fits write ∙ ap ok rest_eq;
        same_params =
            get_params-set_total_supply k math stores sets c rest w₁ w' write
            ∙ get_params-store k c w₁ w same;
        burned = burned;
      }

module _ (k : Sdk) (c : ParamsCodec) (math : MathLaws k) where
  burn_checks-granted :
      (msg : MsgBurn) (w : World k) (plan : BurnPlan)
      → (g : BurnGranted k c msg w plan) → one_coin k g.params.denom plan.amount ≡ ok plan.coins
      → burn_checks k c msg w ≡ ok plan
  unfolding burn_checks positive_amount
  burn_checks-granted msg w plan g one =
      let positive : k.int_is_positive plan.amount ≡ true =
        ground (arith, math.positive_lem plan.amount, g.positive) in
      let issuer : bytes_eq msg.authority g.params.issuer ≡ true =
        (bytes_eq_iff _ _).1 g.by_issuer in
      rw (g.stored, g.running, issuer, g.holder, g.parsed, positive, one)

  -- The counter that the handler reads after the burn is the one from before it.
  read_after :
      (w : World k) (b : k.Bank) {a : ℤ}
      → get_total_supply k w ≡ ok a
      → get_total_supply k (record { store = w.store; bank = b }) ≡ ok a
  read_after w b e = get_total_supply-store k _ w refl ∙ e

  -- A granted burn of at most the counter goes through where the libraries do their part.
  -- The libraries keep their laws.
  pub burn-granted :
      (msg : MsgBurn) (w : World k) (plan : BurnPlan)
      → (current rest : ℤ) (b₁ b₂ : k.Bank) (s' : k.Store) → (g : BurnGranted k c msg w plan)
      → one_coin k g.params.denom plan.amount ≡ ok plan.coins
      → k.send_account_to_module plan.from module_name plan.coins w.bank ≡ (ok tt, b₁)
      → k.burn_coins module_name plan.coins b₁ ≡ (ok tt, b₂)
      → get_total_supply k w ≡ ok current
      → plan.amount ≤ℤ current
      → k.int_sub current plan.amount ≡ some rest
      → k.kv_set total_supply_key (k.int_string rest) w.store ≡ (ok tt, s')
      → burn k c msg w ≡ (ok tt, record { store = s'; bank = b₂ })
  unfolding burn burn_effects set_total_supply
  burn-granted msg w plan current rest b₁ b₂ s' g one send burned read enough sub write =
      let covered : k.int_lt current plan.amount ≡ false =
        grind (arith, math.lt_lem current plan.amount, enough) in
      rw (
        burn_checks-granted msg w plan g one,
        send,
        burned,
        read_after w b₂ read,
        covered,
        sub,
        write,
      )

  -- The counter is tested after the coins are gone: a granted burn of more than the counter ends
  -- with the underflow error on a state in which the bank has already burned the coins.
  -- The libraries keep their laws.
  pub burn_underflow :
      BankLaws k
      → (msg : MsgBurn) (w : World k) (plan : BurnPlan) → (current : ℤ) (b₁ b₂ : k.Bank)
      → (g : BurnGranted k c msg w plan) → one_coin k g.params.denom plan.amount ≡ ok plan.coins
      → k.send_account_to_module plan.from module_name plan.coins w.bank ≡ (ok tt, b₁)
      → k.burn_coins module_name plan.coins b₁ ≡ (ok tt, b₂)
      → get_total_supply k w ≡ ok current
      → current <ℤ plan.amount
      → (burn k c msg w ≡ (err supply_underflow, record { store = w.store; bank = b₂ }))
        × ((d : Bytes) → k.supply_of d b₂ ≡ k.supply_of d w.bank -ℤ amount_of d plan.coins)
  unfolding burn burn_effects
  burn_underflow bank msg w plan current b₁ b₂ g one send burned read short =
      let lacking : k.int_lt current plan.amount ≡ true =
        grind (arith, math.lt_lem current plan.amount, short) in
      (
        rw (burn_checks-granted msg w plan g one, send, burned, read_after w b₂ read, lacking),
        λ d.
            bank.supply-burn _ _ _ _ d burned
            ∙ ap (λ x. x -ℤ amount_of d plan.coins) (bank.supply-send_in _ _ _ _ _ d send),
      )
