-- ===== src/Keeper/Server/Checks.antt =====
-- What it means that a handler passed its checks.
use stable_coin.Prelude.{
  ◌≡◌, Bytes, none, some, not, false, [], ◌∷◌, bytes_eq, bytes_eq→eq, arith, Option-cases, inl, inr,
}
use mathlib.Core.Path.{subst}
use stable_coin.Prelude.Int.{ℤ, pos, ◌+ℤ◌, ◌≤ℤ◌, ◌<ℤ◌}
use stable_coin.Go.Outcome.{
  ok, check_err, ◌>>=◌, >>=-eq-ok, raise_if-eq-ok, or_raise-eq-ok, or_panic-eq-ok, check_err-eq-ok,
  or_raise, or_panic,
}
use stable_coin.Sdk.{Sdk, Coins, MathLaws, CoinLaws}
use stable_coin.Types.Params.{Params, ParamsCodec}
use stable_coin.Types.Messages.{MsgMint, MsgBurn}
use stable_coin.Keeper.State.{World, get_params, get_total_supply}
use stable_coin.Keeper.Server.{
  MintPlan, BurnPlan, positive_amount, one_coin, mint_checks, burn_checks,
}

module _ (k : Sdk) (math : MathLaws k) where
  pub positive_amount_lem :
      (text : Bytes) (a : ℤ)
      → positive_amount k text ≡ ok a
      → (k.new_int_from_string text ≡ some a) × (pos 0 <ℤ a)
  unfolding positive_amount
  positive_amount_lem text a h = ground (arith, math.positive_lem a)

pub one_coin_lem :
    (k : Sdk) (coin : CoinLaws k) (d : Bytes) (a : ℤ) (cs : Coins)
    → pos 0 <ℤ a
    → one_coin k d a ≡ ok cs
    → cs ≡ record { denom = d; amount = a } ∷ []
unfolding one_coin
one_coin_lem k coin d a cs p h = elim (Option-cases (k.new_coin d a)) [
  | inl e ↦ ground arith
  | inr (x, e) ↦ ground (arith, coin.new_coin_lem d a x e, coin.new_coins_lem x cs)
]

-- Under what a mint goes ahead, with the variables that the handler has then.
pub record MintGranted (k : Sdk) (c : ParamsCodec) (msg : MsgMint) (w : World k) (plan : MintPlan)
    : Type 0 where
  pub params : Params
  pub max : ℤ
  pub stored : get_params k c w ≡ ok (params, none)
  pub running : params.paused ≡ false
  pub by_issuer : msg.authority ≡ params.issuer
  pub parsed : k.new_int_from_string msg.amount ≡ some plan.amount
  pub positive : pos 0 <ℤ plan.amount
  pub limit : k.new_int_from_string params.max_supply ≡ some max
  pub counter : get_total_supply k w ≡ ok plan.current_supply
  pub in_limit : plan.current_supply +ℤ plan.amount ≤ℤ max
  pub recipient : k.acc_address_from_bech32 msg.to_address ≡ ok plan.to
  pub paid : plan.coins ≡ record { denom = params.denom; amount = plan.amount } ∷ []

module _ (k : Sdk) (math : MathLaws k) (coin : CoinLaws k) (c : ParamsCodec) where
  pub mint_checks-ok :
      (msg : MsgMint) (w : World k) (plan : MintPlan)
      → mint_checks k c msg w ≡ ok plan
      → MintGranted k c msg w plan
  unfolding mint_checks
  mint_checks-ok msg w plan h =
      let (p, ep, h₁) = >>=-eq-ok (get_params k c w >>= check_err) _ h in
      let (running, h₂) = raise_if-eq-ok p.paused _ _ h₁ in
      let (issuer, h₃) = raise_if-eq-ok (not (bytes_eq msg.authority p.issuer)) _ _ h₂ in
      let (a, ea, h₄) = >>=-eq-ok (positive_amount k msg.amount) _ h₃ in
      let (max, em, h₅) = >>=-eq-ok (or_raise (k.new_int_from_string p.max_supply) _) _ h₄ in
      let (cur, ec, h₆) = >>=-eq-ok (get_total_supply k w) _ h₅ in
      let (sum, es, h₇) = >>=-eq-ok (or_panic (k.int_add cur a)) _ h₆ in
      let (below, h₈) = raise_if-eq-ok (k.int_gt sum max) _ _ h₇ in
      let (to, et, h₉) = >>=-eq-ok (k.acc_address_from_bech32 msg.to_address) _ h₈ in
      let (cs, ecs, h₁₀) = >>=-eq-ok (one_coin k p.denom a) _ h₉ in
      let (parsed, positive) = positive_amount_lem k math msg.amount a ea in
      let e : record { amount = a; current_supply = cur; to = to; coins = cs } ≡ plan =
        ground (arith, h₁₀) in
      subst (MintGranted k c msg w) e (record {
        params = p;
        max = max;
        stored = check_err-eq-ok _ ep;
        running = running;
        by_issuer = bytes_eq→eq _ _ (ground arith);
        parsed = parsed;
        positive = positive;
        limit = or_raise-eq-ok _ _ em;
        counter = ec;
        in_limit = grind (arith, math.gt_lem sum max, math.add_lem cur a sum (or_panic-eq-ok _ es));
        recipient = et;
        paid = one_coin_lem k coin p.denom a cs positive ecs;
      })

-- The same for a burn. The counter is not among the checks.
pub record BurnGranted (k : Sdk) (c : ParamsCodec) (msg : MsgBurn) (w : World k) (plan : BurnPlan)
    : Type 0 where
  pub params : Params
  pub stored : get_params k c w ≡ ok (params, none)
  pub running : params.paused ≡ false
  pub by_issuer : msg.authority ≡ params.issuer
  pub holder : k.acc_address_from_bech32 msg.from_address ≡ ok plan.from
  pub parsed : k.new_int_from_string msg.amount ≡ some plan.amount
  pub positive : pos 0 <ℤ plan.amount
  pub paid : plan.coins ≡ record { denom = params.denom; amount = plan.amount } ∷ []

module _ (k : Sdk) (math : MathLaws k) (coin : CoinLaws k) (c : ParamsCodec) where
  pub burn_checks-ok :
      (msg : MsgBurn) (w : World k) (plan : BurnPlan)
      → burn_checks k c msg w ≡ ok plan
      → BurnGranted k c msg w plan
  unfolding burn_checks
  burn_checks-ok msg w plan h =
      let (p, ep, h₁) = >>=-eq-ok (get_params k c w >>= check_err) _ h in
      let (running, h₂) = raise_if-eq-ok p.paused _ _ h₁ in
      let (issuer, h₃) = raise_if-eq-ok (not (bytes_eq msg.authority p.issuer)) _ _ h₂ in
      let (from, ef, h₄) = >>=-eq-ok (k.acc_address_from_bech32 msg.from_address) _ h₃ in
      let (a, ea, h₅) = >>=-eq-ok (positive_amount k msg.amount) _ h₄ in
      let (cs, ecs, h₆) = >>=-eq-ok (one_coin k p.denom a) _ h₅ in
      let (parsed, positive) = positive_amount_lem k math msg.amount a ea in
      let e : record { from = from; amount = a; coins = cs } ≡ plan = ground (arith, h₆) in
      subst (BurnGranted k c msg w) e (record {
        params = p;
        stored = check_err-eq-ok _ ep;
        running = running;
        by_issuer = bytes_eq→eq _ _ (ground arith);
        holder = ef;
        parsed = parsed;
        positive = positive;
        paid = one_coin_lem k coin p.denom a cs positive ecs;
      })
