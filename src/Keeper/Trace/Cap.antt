-- ===== src/Keeper/Trace/Cap.antt =====
-- The counter against the limits that were in force.
use stable_coin.Prelude.{◌≡◌, sym, ap, ◌∙◌, none, some}
use mathlib.Core.Path.{subst}
use stable_coin.Prelude.Int.{ℤ, pos, ◌+ℤ◌, ◌-ℤ◌, ◌≤ℤ◌, int_laws}
use stable_coin.Go.Outcome.{ok_inj, ok}
use stable_coin.Sdk.{Sdk, MathLaws, CoinLaws, BankLaws, StoreLaws, SetLaws}
use stable_coin.Types.Params.{Params, ParamsCodec, CodecLaws}
use stable_coin.Types.Messages.{MsgMint, MsgBurn}
use stable_coin.Keeper.State.{World, Keeper, get_params, get_total_supply}
use stable_coin.Keeper.State.Supply.{get_params-store, get_total_supply-store}
use stable_coin.Keeper.Server.Mint.{MintDone, mint-MintDone}
use stable_coin.Keeper.Server.Burn.{BurnDone, burn-BurnDone}
use stable_coin.Keeper.Update.Effect.{update_params-ok}
use stable_coin.Keeper.Trace.{Step, minted, burned, updated, other, Reach, here, next}

-- No limit above `top`.
abbrev pub IsWithin : Sdk → ℤ → Params → Type 0
IsWithin k top p = (m : ℤ) → k.new_int_from_string p.max_supply ≡ some m → m ≤ℤ top

pub record IsCapped (k : Sdk) (c : ParamsCodec) (top : ℤ) (w : World k) : Type 0 where
  pub total : ℤ
  pub counter : get_total_supply k w ≡ ok total
  pub nonneg : pos 0 ≤ℤ total
  pub capped : total ≤ℤ top
  pub limited : (p : Params) → get_params k c w ≡ ok (p, none) → IsWithin k top p

module _ (k : Sdk) (c : ParamsCodec) (top : ℤ) {w w' : World k} (v : IsCapped k c top w) where
  mint-IsCapped : (m : MsgMint) → MintDone k c m w w' → IsCapped k c top w'
  mint-IsCapped m d =
      let g = d.granted in
      let e = ok_inj (sym g.counter ∙ v.counter) in
      record {
        total = d.plan.current_supply +ℤ d.plan.amount;
        counter = d.counted;
        nonneg = grind (int_laws, e, v.nonneg, g.positive);
        capped = grind (int_laws, g.in_limit, v.limited g.params g.stored g.max g.limit);
        limited = λ p h. v.limited p (sym d.same_params ∙ h);
      }

  burn-IsCapped : (m : MsgBurn) → BurnDone k c m w w' → IsCapped k c top w'
  burn-IsCapped m d =
      let e = ok_inj (sym d.counter ∙ v.counter) in
      record {
        total = d.current -ℤ d.plan.amount;
        counter = d.counted;
        nonneg = grind (int_laws, d.covered);
        capped = grind (int_laws, e, v.capped, d.granted.positive);
        limited = λ p h. v.limited p (sym d.same_params ∙ h);
      }

module _ (k : Sdk) (keeper : Keeper) (c : ParamsCodec) (math : MathLaws k) (coin : CoinLaws k)
    (bank : BankLaws k) (stores : StoreLaws k) (sets : SetLaws k) (codec : CodecLaws c)
    (top : ℤ) where
  Step-IsCapped :
      {Keeps : k.Bank → k.Bank → Type 0} {w w' : World k}
      → Step k keeper c (IsWithin k top) Keeps w w'
      → IsCapped k c top w
      → IsCapped k c top w'
  Step-IsCapped (minted {w} {w'} m e) v =
      mint-IsCapped k c top v m (mint-MintDone k c math coin bank stores sets m w w' e)
  Step-IsCapped (burned {w} {w'} m e) v =
      burn-IsCapped k c top v m (burn-BurnDone k c math coin bank stores sets m w w' e)
  Step-IsCapped (updated {w} {w'} r e within) v =
      let (_, _, read, counter, _) = update_params-ok k keeper math r c stores codec w w' e in
      record {
        total = v.total;
        counter = counter ∙ v.counter;
        nonneg = v.nonneg;
        capped = v.capped;
        limited = λ p h. subst (IsWithin k top) (ap (λ x. x.0) (ok_inj (sym read ∙ h))) within;
      }
  Step-IsCapped (other {w} {w'} s e) v = record {
    total = v.total;
    counter = get_total_supply-store k w' w s ∙ v.counter;
    nonneg = v.nonneg;
    capped = v.capped;
    limited = λ p h. v.limited p (sym (get_params-store k c w' w s) ∙ h);
  }

  -- Whatever messages succeed, and whatever the rest of the chain does to the bank: from a counter
  -- between 0 and `top`, with no limit above `top` stored at the start or set on the way, the
  -- counter stays between 0 and `top`.
  -- The libraries keep their laws.
  pub Reach-IsCapped :
      {Keeps : k.Bank → k.Bank → Type 0} {w w' : World k}
      → Reach k keeper c (IsWithin k top) Keeps w w'
      → IsCapped k c top w
      → IsCapped k c top w'
  Reach-IsCapped here v = v
  Reach-IsCapped (next r s) v = Step-IsCapped s (Reach-IsCapped r v)
