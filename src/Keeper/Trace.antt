-- ===== src/Keeper/Trace.antt =====
-- The committed states of the chain, as far as the module is concerned. A message that fails
-- leaves no trace: the state of a failed transaction is dropped by the caller of the handlers.
pub mod Cap
pub mod Backing
pub mod Token
use stable_coin.Prelude.{◌≡◌}
use stable_coin.Go.Outcome.{ok}
use stable_coin.Sdk.{Sdk}
use stable_coin.Types.Params.{Params, ParamsCodec}
use stable_coin.Types.Messages.{MsgMint, MsgBurn, MsgUpdateParams}
use stable_coin.Keeper.State.{World, Keeper}
use stable_coin.Keeper.Server.{mint, burn}
use stable_coin.Keeper.Update.{update_params}

module _ (k : Sdk) (keeper : Keeper) (c : ParamsCodec) where
  -- One committed step. `Accepts` restricts the parameters that the authority sets, and `Keeps`
  -- what the rest of the chain does to the bank. The rest cannot reach the module's store.
  pub data Step (Accepts : Params → Type 0) (Keeps : k.Bank → k.Bank → Type 0)
      : World k → World k → Type 0 where
    minted : {w w' : World k} (m : MsgMint) → mint k c m w ≡ (ok tt, w') → Step Accepts Keeps w w'
    burned : {w w' : World k} (m : MsgBurn) → burn k c m w ≡ (ok tt, w') → Step Accepts Keeps w w'
    updated :
        {w w' : World k} (r : MsgUpdateParams)
        → update_params k keeper c r w ≡ (ok tt, w')
        → Accepts r.params
        → Step Accepts Keeps w w'
    other : {w w' : World k} → w'.store ≡ w.store → Keeps w.bank w'.bank → Step Accepts Keeps w w'

  pub data Reach (Accepts : Params → Type 0) (Keeps : k.Bank → k.Bank → Type 0) (w : World k)
      : World k → Type 0 where
    here : Reach Accepts Keeps w w
    next :
        {u v : World k} → Reach Accepts Keeps w u → Step Accepts Keeps u v → Reach Accepts Keeps w v
