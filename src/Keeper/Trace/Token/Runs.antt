-- ===== src/Keeper/Trace/Token/Runs.antt =====
-- The events of a run, and the machine on them.
use stable_coin.Prelude.{◌≡◌, refl, ap, ◌∙◌, some, List, [], ◌∷◌}
use stable_coin.Sdk.{Sdk, MathLaws, CoinLaws, BankLaws, StoreLaws, SetLaws}
use stable_coin.Types.Params.{Params, ParamsCodec, CodecLaws}
use stable_coin.Keeper.State.{World, Keeper}
use stable_coin.Keeper.State.Supply.{get_params-store, get_total_supply-store}
use stable_coin.Keeper.Server.Mint.{mint-MintDone}
use stable_coin.Keeper.Server.Burn.{burn-BurnDone}
use stable_coin.Keeper.Trace.{Step, minted, burned, updated, other, Reach, here, next}
use stable_coin.Keeper.Trace.Token.{
  Token, Event, mint_event, burn_event, govern_event, outside_event, token_step, and_step,
  token_run,
}
use stable_coin.Keeper.Trace.Token.Steps.{
  answer, Views, same_terms, mint-Views, burn-Views, update-Views,
}

module _ (k : Sdk) (keeper : Keeper) (c : ParamsCodec) {Accepts : Params → Type 0}
    {Keeps : k.Bank → k.Bank → Type 0} where
  abbrev pub event : {w w' : World k} → Step k keeper c Accepts Keeps w w' → Event
  event (minted m e) = mint_event m.authority (k.new_int_from_string m.amount)
  event (burned m e) = burn_event m.authority (k.new_int_from_string m.amount)
  event (updated r e good) =
      govern_event (answer (k.string_to_bytes r.authority)) r.params.issuer r.params.denom
        r.params.paused (k.new_int_from_string r.params.max_supply)
  event (other {w' = w'} s e) = outside_event (λ d. k.supply_of d w'.bank)

  -- The events of a run, the latest first.
  unfoldable pub events : {w w' : World k} → Reach k keeper c Accepts Keeps w w' → List Event
  events here = []
  events (next r s) = event s ∷ events r

module _ (k : Sdk) (keeper : Keeper) (c : ParamsCodec) (math : MathLaws k) (coin : CoinLaws k)
    (bank : BankLaws k) (stores : StoreLaws k) (sets : SetLaws k) (codec : CodecLaws c)
    {Accepts : Params → Type 0} {Keeps : k.Bank → k.Bank → Type 0} where
  Step-Views :
      {w w' : World k} (t : Token) (s : Step k keeper c Accepts Keeps w w')
      → Views k keeper c w t
      → (t' : Token) × (token_step (event k keeper c s) t ≡ some t') × Views k keeper c w' t'
  unfolding token_step
  Step-Views t (minted {w} {w'} m e) v =
      mint-Views k keeper c t v m (mint-MintDone k c math coin bank stores sets m w w' e)
  Step-Views t (burned {w} {w'} m e) v =
      burn-Views k keeper c t v m (burn-BurnDone k c math coin bank stores sets m w w' e)
  Step-Views t (updated r e good) v = update-Views k keeper math stores c codec t v r e
  Step-Views t (other {w} {w'} s e) v =
      let t' : Token = record t { supply = λ d. k.supply_of d w'.bank } in
      (
        t',
        refl,
        same_terms k keeper c t v t' (get_params-store k c w' w s) (refl, refl, refl, refl, refl)
            (get_total_supply-store k w' w s ∙ v.counter) (λ d. refl),
      )

  -- The committed states of the chain are the runs of the token machine. From a state that the
  -- token `t` views, whatever messages succeed and whatever the rest of the chain does to the
  -- bank, the machine accepts the events of the run, and the token it ends in views the state that
  -- is reached: stored terms, counter and the bank's supply of every denom.
  -- The libraries keep their laws.
  pub Reach-token_run :
      {w w' : World k} (t : Token) (r : Reach k keeper c Accepts Keeps w w')
      → Views k keeper c w t
      → (t' : Token) × (token_run (events k keeper c r) t ≡ some t') × Views k keeper c w' t'
  unfolding token_run events
  Reach-token_run t here v = (t, refl, v)
  Reach-token_run t (next r s) v =
      let (u, run, seen) = Reach-token_run t r v in
      let (t', step, sees) = Step-Views u s seen in
      (t', ap (and_step (event k keeper c s)) run ∙ step, sees)
