-- ===== src/Keeper/Trace/Token/Accepts.antt =====
-- What the machine accepts, and what the handlers let through.
use stable_coin.Prelude.{
  ◌≡◌, ◌≢◌, ◌↔◌, sym, ap, ◌∙◌, some, Bytes, true, false, bytes_eq, bytes_eq→eq, arith,
}
use mathlib.Core.Option.{some-injective}
use stable_coin.Prelude.Int.{ℤ, pos, ◌+ℤ◌, ◌≤ℤ◌, ◌<ℤ◌, ltb_ℤ}
use stable_coin.Go.Outcome.{Outcome, Done, ok, panic, reading-eq-ok}
use stable_coin.Sdk.{Sdk, Coins, MathLaws, CoinLaws, BankLaws, StoreLaws, SetLaws}
use stable_coin.Types.Params.{ParamsCodec, module_name, total_supply_key}
use stable_coin.Types.Messages.{MsgMint, MsgBurn}
use stable_coin.Keeper.State.{World, Keeper}
use stable_coin.Keeper.Server.{one_coin, mint_checks, mint_effects, mint, burn}
use stable_coin.Keeper.Server.Checks.{MintGranted, BurnGranted, one_coin_lem, mint_checks-ok}
use stable_coin.Keeper.Server.Mint.{mint-granted}
use stable_coin.Keeper.Server.Burn.{burn-granted, burn-BurnDone}
use stable_coin.Keeper.Trace.Token.{
  guarded-eq-some, Token, mint_event, burn_event, may_change, grow, shrink, token_step,
}
use stable_coin.Keeper.Trace.Token.Steps.{Views, granted-token_step, burn-Views}

-- What a token that may be changed by someone looks like.
record Allowed (by : Bytes) (a : ℤ) (t : Token) : Type 0 where
  pub running : t.paused ≡ false
  pub by_issuer : by ≡ t.issuer
  pub positive : pos 0 <ℤ a

may_change-Allowed : (by : Bytes) (a : ℤ) (t : Token) → may_change by a t ≡ true → Allowed by a t
may_change-Allowed by a t h =
    let same : bytes_eq by t.issuer ≡ true = ground (arith, h) in
    record {
      running = ground (arith, h);
      by_issuer = bytes_eq→eq by t.issuer same;
      positive = ground (arith, h);
    }

token_step-mint_inv :
    (by : Bytes) (a : ℤ) (t : Token) {t' : Token}
    → token_step (mint_event by (some a)) t ≡ some t'
    → Allowed by a t × (t.total +ℤ a ≤ℤ t.limit)
unfolding token_step
token_step-mint_inv by a t h =
    let both = (guarded-eq-some _ (grow a t) h).0 in
    let may : may_change by a t ≡ true = ground (arith, both) in
    let below : ltb_ℤ t.limit (t.total +ℤ a) ≡ false = ground (arith, both) in
    (may_change-Allowed by a t may, grind (arith, below))

token_step-burn_inv :
    (by : Bytes) (a : ℤ) (t : Token) {t' : Token}
    → token_step (burn_event by (some a)) t ≡ some t'
    → Allowed by a t × (a ≤ℤ t.total)
unfolding token_step
token_step-burn_inv by a t h =
    let both = (guarded-eq-some _ (shrink a t) h).0 in
    let may : may_change by a t ≡ true = ground (arith, both) in
    let below : ltb_ℤ t.total a ≡ false = ground (arith, both) in
    (may_change-Allowed by a t may, grind (arith, below))

shrunk :
    (by : Bytes) (a : ℤ) (t : Token) {t' : Token}
    → token_step (burn_event by (some a)) t ≡ some t'
    → token_step (burn_event by (some a)) t ≡ some (shrink a t)
unfolding token_step
shrunk by a t h = h ∙ ap some (sym (guarded-eq-some _ (shrink a t) h).1)

module _ (k : Sdk) (keeper : Keeper) (c : ParamsCodec) (math : MathLaws k) (coin : CoinLaws k)
    {w : World k} (t : Token) (v : Views k keeper c w t) where
  granted_mint :
      (m : MsgMint) (a : ℤ) (to : Bytes) (coins : Coins)
      → k.new_int_from_string m.amount ≡ some a
      → k.acc_address_from_bech32 m.to_address ≡ ok to
      → one_coin k t.denom a ≡ ok coins
      → Allowed m.authority a t
      → t.total +ℤ a ≤ℤ t.limit
      → (g : MintGranted k c m w
          (record { amount = a; current_supply = t.total; to = to; coins = coins }))
        × (one_coin k g.params.denom a ≡ ok coins)
  granted_mint m a to coins parsed recipient one may fits =
      let (_, fi, fd, fp) = v.terms in
      let made : one_coin k v.params.denom a ≡ ok coins = ap (λ d. one_coin k d a) (sym fd) ∙ one in
      (
        record {
          params = v.params;
          max = t.limit;
          stored = v.stored;
          running = sym fp ∙ may.running;
          by_issuer = may.by_issuer ∙ fi;
          parsed = parsed;
          positive = may.positive;
          limit = v.limit;
          counter = v.counter;
          in_limit = fits;
          recipient = recipient;
          paid = one_coin_lem k coin v.params.denom a coins may.positive made;
        },
        made,
      )

  granted_burn :
      (m : MsgBurn) (a : ℤ) (from : Bytes) (coins : Coins)
      → k.new_int_from_string m.amount ≡ some a
      → k.acc_address_from_bech32 m.from_address ≡ ok from
      → one_coin k t.denom a ≡ ok coins
      → Allowed m.authority a t
      → (g : BurnGranted k c m w (record { from = from; amount = a; coins = coins })) × (one_coin k
            g.params.denom a
          ≡ ok coins)
  granted_burn m a from coins parsed holder one may =
      let (_, fi, fd, fp) = v.terms in
      let made : one_coin k v.params.denom a ≡ ok coins = ap (λ d. one_coin k d a) (sym fd) ∙ one in
      (
        record {
          params = v.params;
          stored = v.stored;
          running = sym fp ∙ may.running;
          by_issuer = may.by_issuer ∙ fi;
          holder = holder;
          parsed = parsed;
          positive = may.positive;
          paid = one_coin_lem k coin v.params.denom a coins may.positive made;
        },
        made,
      )

  -- Where the libraries do their part, Mint goes through exactly where the machine accepts the
  -- event, in the state that the token views. The libraries do their part: the amount and the
  -- recipient can be read, the sum is in range, the coin can be made, and the bank mints and sends
  -- it. The write of the counter may end with an error, which does not make Mint fail; only a
  -- panic is excluded. The arithmetic and the coins of the libraries keep their laws.
  pub mint_iff :
      (m : MsgMint) (a sum : ℤ) (to : Bytes) (coins : Coins) (b₁ b₂ : k.Bank) (r : Outcome Done)
      → (s' : k.Store) → k.new_int_from_string m.amount ≡ some a
      → k.acc_address_from_bech32 m.to_address ≡ ok to
      → one_coin k t.denom a ≡ ok coins
      → k.int_add t.total a ≡ some sum
      → k.mint_coins module_name coins w.bank ≡ (ok tt, b₁)
      → k.send_module_to_account module_name to coins b₁ ≡ (ok tt, b₂)
      → k.kv_set total_supply_key (k.int_string sum) w.store ≡ (r, s')
      → r ≢ panic
      → (mint k c m w ≡ (ok tt, record { store = s'; bank = b₂ }))
        ↔ (token_step (mint_event m.authority (some a)) t ≡ some (grow a t))
  unfolding mint
  mint_iff m a sum to coins b₁ b₂ r s' parsed recipient one add minted sent write np = (
    λ h.
        let (plan, checked, _) = reading-eq-ok (mint_checks k c m w) w (mint_effects k) h in
        let g = mint_checks-ok k math coin c m w plan checked in
        let same : plan.amount ≡ a = some-injective _ _ (sym g.parsed ∙ parsed) in
        ap (λ x. token_step (mint_event m.authority x) t) (sym parsed)
        ∙ granted-token_step k keeper c t v m plan g
        ∙ ap (λ x. some (grow x t)) same,
    λ h.
        let (may, fits) = token_step-mint_inv m.authority a t h in
        let (g, made) = granted_mint m a to coins parsed recipient one may fits in
        mint-granted k c math m w
          (record { amount = a; current_supply = t.total; to = to; coins = coins }) sum b₁ b₂ r s' g
          add made minted sent write np,
  )

  module _ (bank : BankLaws k) (stores : StoreLaws k) (sets : SetLaws k) where
    -- Where the libraries do their part, Burn goes through exactly where the machine accepts the
    -- event, in the state that the token views. The libraries do their part: the amount and the
    -- holder can be read, the difference is in range, the coin can be made, the bank takes and
    -- burns it, and the counter is written.
    -- The libraries keep their laws.
    pub burn_iff :
        (m : MsgBurn) (a rest : ℤ) (from : Bytes) (coins : Coins) (b₁ b₂ : k.Bank) (s' : k.Store)
        → k.new_int_from_string m.amount ≡ some a
        → k.acc_address_from_bech32 m.from_address ≡ ok from
        → one_coin k t.denom a ≡ ok coins
        → k.send_account_to_module from module_name coins w.bank ≡ (ok tt, b₁)
        → k.burn_coins module_name coins b₁ ≡ (ok tt, b₂)
        → k.int_sub t.total a ≡ some rest
        → k.kv_set total_supply_key (k.int_string rest) w.store ≡ (ok tt, s')
        → (burn k c m w ≡ (ok tt, record { store = s'; bank = b₂ }))
          ↔ (token_step (burn_event m.authority (some a)) t ≡ some (shrink a t))
    burn_iff m a rest from coins b₁ b₂ s' parsed holder one sent burned sub write = (
      λ h.
          let done = burn-BurnDone k c math coin bank stores sets m w _ h in
          let (t', step, _) = burn-Views k keeper c t v m done in
          shrunk m.authority a t
            (ap (λ x. token_step (burn_event m.authority x) t) (sym parsed) ∙ step),
      λ h.
          let (may, covered) = token_step-burn_inv m.authority a t h in
          let (g, made) = granted_burn m a from coins parsed holder one may in
          burn-granted k c math m w (record { from = from; amount = a; coins = coins }) t.total rest
            b₁ b₂ s' g made sent burned v.counter covered sub write,
    )
