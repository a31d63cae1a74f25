-- ===== src/Keeper/Server/Mint.antt =====
-- What a successful Mint has done, and when it goes through.
use stable_coin.Prelude.{
  ◌≡◌, ◌≢◌, refl, ap, ◌∙◌, Bytes, none, some, true, false, bytes_eq, bytes_eq_iff, arith,
}
use stable_coin.Prelude.Int.{ℤ, ◌+ℤ◌}
use stable_coin.Go.Outcome.{Outcome, Done, ok, err, panic, reading-eq-ok}
use stable_coin.Sdk.{Sdk, MathLaws, CoinLaws, BankLaws, StoreLaws, SetLaws, amount_of}
use stable_coin.Types.Params.{ParamsCodec, module_name, total_supply_key}
use stable_coin.Types.Messages.{MsgMint}
use stable_coin.Keeper.State.{World, get_params, get_total_supply, set_total_supply}
use stable_coin.Keeper.State.Supply.{
  get_total_supply-set, get_params-set_total_supply, get_params-store,
}
use stable_coin.Keeper.Server.{MintPlan, one_coin, positive_amount, mint_checks, mint_effects, mint}
use stable_coin.Keeper.Server.Checks.{MintGranted, mint_checks-ok}
use stable_coin.Keeper.Server.Effects.{mint_effects-ok}

-- What holds after a mint from `w` to `w'`.
pub record MintDone (k : Sdk) (c : ParamsCodec) (msg : MsgMint) (w w' : World k) : Type 0 where
  pub plan : MintPlan
  pub granted : MintGranted k c msg w plan
  pub counted : get_total_supply k w' ≡ ok (plan.current_supply +ℤ plan.amount)
  pub same_params : get_params k c w' ≡ get_params k c w
  pub minted : (d : Bytes) → k.supply_of d w'.bank ≡ k.supply_of d w.bank +ℤ amount_of d plan.coins

module _ (k : Sdk) (c : ParamsCodec) (math : MathLaws k) (coin : CoinLaws k) (bank : BankLaws k)
    (stores : StoreLaws k) (sets : SetLaws k) where
  -- A successful Mint was granted: the module was not paused, the sender was the issuer, the
  -- amount was a positive integer, and the counter stayed within the limit. It has added the
  -- amount to the counter and the coin to the bank's supply, and kept the parameters. The
  -- libraries keep their laws.
  pub mint-MintDone :
      (msg : MsgMint) (w w' : World k) → mint k c msg w ≡ (ok tt, w') → MintDone k c msg w w'
  unfolding mint
  mint-MintDone msg w w' h =
      let (plan, e, h₁) = reading-eq-ok (mint_checks k c msg w) w (mint_effects k) h in
      let (sum, w₁, add, same, write, minted) = mint_effects-ok k bank sets plan w w' h₁ in
      let (sum_eq, fits) = math.add_lem _ _ sum add in
      record {
        plan = plan;
        granted = mint_checks-ok k math coin c msg w plan e;
        counted = get_total_supply-set k math stores sets sum w₁ w' fits write ∙ ap ok sum_eq;
        same_params =
            get_params-set_total_supply k math stores sets c sum w₁ w' write
            ∙ get_params-store k c w₁ w same;
        minted = minted;
      }

module _ (k : Sdk) (c : ParamsCodec) where
  mint_checks-granted :
      (math : MathLaws k) (msg : MsgMint) (w : World k) (plan : MintPlan) {sum : ℤ}
      → (g : MintGranted k c msg w plan) → k.int_add plan.current_supply plan.amount ≡ some sum
      → one_coin k g.params.denom plan.amount ≡ ok plan.coins
      → mint_checks k c msg w ≡ ok plan
  unfolding mint_checks positive_amount
  mint_checks-granted math msg w plan {sum} g add one =
      let positive : k.int_is_positive plan.amount ≡ true =
        ground (arith, math.positive_lem plan.amount, g.positive) in
      let below : k.int_gt sum g.max ≡ false =
        grind (arith, math.gt_lem sum g.max, math.add_lem _ _ sum add, g.in_limit) in
      let issuer : bytes_eq msg.authority g.params.issuer ≡ true =
        (bytes_eq_iff _ _).1 g.by_issuer in
      rw (
        g.stored, g.running, issuer, g.parsed, positive, g.limit, g.counter, add, below,
        g.recipient, one,
      )

  mint_effects-returns :
      (plan : MintPlan) (w : World k) {sum : ℤ} {b₁ b₂ : k.Bank} {r : Outcome Done} {s' : k.Store}
      → k.int_add plan.current_supply plan.amount ≡ some sum
      → k.mint_coins module_name plan.coins w.bank ≡ (ok tt, b₁)
      → k.send_module_to_account module_name plan.to plan.coins b₁ ≡ (ok tt, b₂)
      → k.kv_set total_supply_key (k.int_string sum) w.store ≡ (r, s')
      → r ≢ panic
      → mint_effects k plan w ≡ (ok tt, record { store = s'; bank = b₂ })
  unfolding mint_effects set_total_supply
  mint_effects-returns plan w {r = ok u} add m t write np = rw (m, t, add, write)
  mint_effects-returns plan w {r = err e} add m t write np = rw (m, t, add, write)
  mint_effects-returns plan w {r = panic} add m t write np = absurd (np refl)

  -- A granted mint goes through where the libraries do their part: the sum is in range, the coin
  -- can be made, and the bank mints and sends it. The write of the counter decides nothing: also
  -- where the store answers with an error the handler returns success, on the state that is left.
  -- The libraries keep their laws.
  pub mint-granted :
      (math : MathLaws k) (msg : MsgMint) (w : World k) (plan : MintPlan)
      → (sum : ℤ) (b₁ b₂ : k.Bank) (r : Outcome Done) (s' : k.Store)
      → (g : MintGranted k c msg w plan) → k.int_add plan.current_supply plan.amount ≡ some sum
      → one_coin k g.params.denom plan.amount ≡ ok plan.coins
      → k.mint_coins module_name plan.coins w.bank ≡ (ok tt, b₁)
      → k.send_module_to_account module_name plan.to plan.coins b₁ ≡ (ok tt, b₂)
      → k.kv_set total_supply_key (k.int_string sum) w.store ≡ (r, s')
      → r ≢ panic
      → mint k c msg w ≡ (ok tt, record { store = s'; bank = b₂ })
  unfolding mint
  mint-granted math msg w plan sum b₁ b₂ r s' g add one m t write np =
      rw (mint_checks-granted math msg w plan g add one)
        (mint_effects-returns plan w add m t write np)

  -- Where sdk.NewCoin refuses the stored denom, a mint that passes every test before it panics,
  -- and changes nothing.
  -- The libraries keep their laws.
  pub mint-panic :
      (math : MathLaws k) (msg : MsgMint) (w : World k) (plan : MintPlan) (sum : ℤ)
      → (g : MintGranted k c msg w plan) → k.int_add plan.current_supply plan.amount ≡ some sum
      → k.new_coin g.params.denom plan.amount ≡ none
      → mint k c msg w ≡ (panic, w)
  unfolding mint mint_checks positive_amount one_coin
  mint-panic math msg w plan sum g add refused =
      let positive : k.int_is_positive plan.amount ≡ true =
        ground (arith, math.positive_lem plan.amount, g.positive) in
      let below : k.int_gt sum g.max ≡ false =
        grind (arith, math.gt_lem sum g.max, math.add_lem _ _ sum add, g.in_limit) in
      let issuer : bytes_eq msg.authority g.params.issuer ≡ true =
        (bytes_eq_iff _ _).1 g.by_issuer in
      rw (
        g.stored, g.running, issuer, g.parsed, positive, g.limit, g.counter, add, below,
        g.recipient, refused,
      )
