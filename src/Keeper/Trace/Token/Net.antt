-- ===== src/Keeper/Trace/Token/Net.antt =====
-- The books of the token machine, and the counter of the module against them.
use stable_coin.Prelude.{◌≡◌, refl, sym, ap, ◌∙◌, Option, none, some, List, [], ◌∷◌}
use mathlib.Core.Option.{some-injective}
use stable_coin.Prelude.Int.{ℤ, ◌+ℤ◌, ◌-ℤ◌, int_laws}
use stable_coin.Go.Outcome.{ok}
use stable_coin.Sdk.{Sdk, MathLaws, CoinLaws, BankLaws, StoreLaws, SetLaws}
use stable_coin.Types.Params.{Params, ParamsCodec, CodecLaws}
use stable_coin.Keeper.State.{World, Keeper, get_total_supply}
use stable_coin.Keeper.Trace.{Reach}
use stable_coin.Keeper.Trace.Token.{
  guarded-eq-some, Token, Event, mint_event, burn_event, govern_event, outside_event, token_step,
  and_step, token_run, net,
}
use stable_coin.Keeper.Trace.Token.Steps.{Views}
use stable_coin.Keeper.Trace.Token.Runs.{events, Reach-token_run}

token_step-net :
    (e : Event) (t t' : Token) (earlier : List Event) (n : ℤ)
    → token_step e t ≡ some t'
    → t.total ≡ n +ℤ net earlier
    → t'.total ≡ n +ℤ net (e ∷ earlier)
unfolding token_step net
token_step-net (mint_event by none) t t' earlier n h v = cc
token_step-net (mint_event by (some a)) t t' earlier n h v =
    let e : t.total +ℤ a ≡ t'.total = ap (λ x. x.total) (guarded-eq-some _ _ h).1 in
    grind (int_laws, e, v)
token_step-net (burn_event by none) t t' earlier n h v = cc
token_step-net (burn_event by (some a)) t t' earlier n h v =
    let e : t.total -ℤ a ≡ t'.total = ap (λ x. x.total) (guarded-eq-some _ _ h).1 in
    grind (int_laws, e, v)
token_step-net (govern_event none issuer denom paused max) t t' earlier n h v = cc
token_step-net (govern_event (some by) issuer denom paused none) t t' earlier n h v = cc
token_step-net (govern_event (some by) issuer denom paused (some max)) t t' earlier n h v =
    sym (ap (λ x. x.total) (guarded-eq-some _ _ h).1) ∙ v
token_step-net (outside_event supply) t t' earlier n h v =
    sym (ap (λ x. x.total) (some-injective _ _ h)) ∙ v

and_step-eq-some :
    (e : Event) (o : Option Token) {t' : Token}
    → and_step e o ≡ some t'
    → (t : Token) × (o ≡ some t) × (token_step e t ≡ some t')
and_step-eq-some e none h = cc
and_step-eq-some e (some t) h = (t, refl, h)

token_run-net :
    (es : List Event) (t t' : Token) → token_run es t ≡ some t' → t'.total ≡ t.total +ℤ net es
unfolding token_run net
token_run-net [] t t' h = let e = ap (λ x. x.total) (some-injective _ _ h) in grind (int_laws, e)
token_run-net (e ∷ earlier) t t' h =
    let (u, run, step) = and_step-eq-some e (token_run earlier t) h in
    token_step-net e u t' earlier t.total step (token_run-net earlier t u run)

module _ (k : Sdk) (keeper : Keeper) (c : ParamsCodec) (math : MathLaws k) (coin : CoinLaws k)
    (bank : BankLaws k) (stores : StoreLaws k) (sets : SetLaws k) (codec : CodecLaws c)
    {Accepts : Params → Type 0} {Keeps : k.Bank → k.Bank → Type 0} where
  -- The counter is kept by double entry: after any run from a state that the token `t` views it
  -- reads the total of `t`, and the amounts of the mints of the run more, and the amounts of its
  -- burns less. Updates of the parameters and the rest of the chain do not move it.
  -- The libraries keep their laws.
  pub Reach-net :
      {w w' : World k} (t : Token) (r : Reach k keeper c Accepts Keeps w w')
      → Views k keeper c w t
      → get_total_supply k w' ≡ ok (t.total +ℤ net (events k keeper c r))
  Reach-net t r v =
      let (t', run, seen) = Reach-token_run k keeper c math coin bank stores sets codec t r v in
      seen.counter ∙ ap ok (token_run-net (events k keeper c r) t t' run)
