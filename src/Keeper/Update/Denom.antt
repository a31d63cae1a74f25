-- ===== src/Keeper/Update/Denom.antt =====
-- The new denom of an UpdateParams in a Mint.
use stable_coin.Prelude.{◌≡◌, refl, ◌∙◌, none, some, false, [], ◌∷◌}
use stable_coin.Prelude.Int.{ℤ, pos, ◌+ℤ◌, ◌≤ℤ◌, ◌<ℤ◌}
use stable_coin.Go.Outcome.{ok, panic}
use stable_coin.Sdk.{Sdk, MathLaws, StoreLaws}
use stable_coin.Types.Params.{ParamsCodec, CodecLaws}
use stable_coin.Types.Messages.{MsgMint, MsgUpdateParams}
use stable_coin.Keeper.State.{World, Keeper, get_total_supply}
use stable_coin.Keeper.Server.{MintPlan, mint}
use stable_coin.Keeper.Server.Mint.{mint-panic}
use stable_coin.Keeper.Update.{update_params}
use stable_coin.Keeper.Update.Effect.{update_params-ok}

module _ (k : Sdk) (keeper : Keeper) (c : ParamsCodec) (math : MathLaws k) (stores : StoreLaws k)
    (codec : CodecLaws c) where
  -- After an UpdateParams that went through without the pause, with a denom that sdk.NewCoin
  -- refuses for the amount, a Mint of the new issuer with a positive amount within the new limit
  -- to a valid address panics, and changes nothing. The libraries keep their laws.
  pub update_params-mint_panics :
      (req : MsgUpdateParams) (msg : MsgMint) (w w' : World k) (plan : MintPlan) (max sum : ℤ)
      → update_params k keeper c req w ≡ (ok tt, w')
      → req.params.paused ≡ false
      → k.new_coin req.params.denom plan.amount ≡ none
      → msg.authority ≡ req.params.issuer
      → k.new_int_from_string msg.amount ≡ some plan.amount
      → pos 0 <ℤ plan.amount
      → k.new_int_from_string req.params.max_supply ≡ some max
      → get_total_supply k w ≡ ok plan.current_supply
      → k.int_add plan.current_supply plan.amount ≡ some sum
      → plan.current_supply +ℤ plan.amount ≤ℤ max
      → k.acc_address_from_bech32 msg.to_address ≡ ok plan.to
      → mint k c msg w' ≡ (panic, w')
  update_params-mint_panics req msg w w' plan max sum updated running refused issuer amount positive
        limit counter add within to =
      let (_, _, stored, same, _) =
        update_params-ok k keeper math req c stores codec w w' updated in
      let plan' : MintPlan = record plan {
        coins = record { denom = req.params.denom; amount = plan.amount } ∷ [];
      } in
      mint-panic k c math msg w' plan' sum
        (record {
          params = req.params;
          max = max;
          stored = stored;
          running = running;
          by_issuer = issuer;
          parsed = amount;
          positive = positive;
          limit = limit;
          counter = same ∙ counter;
          in_limit = within;
          recipient = to;
          paid = refl;
        })
        add refused
