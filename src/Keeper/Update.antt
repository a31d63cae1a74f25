-- ===== src/Keeper/Update.antt =====
-- msg_update_params.go: UpdateParams.
pub mod Effect
pub mod Denom
use stable_coin.Prelude.{Bytes, not, bytes_eq}
use stable_coin.Go.Outcome.{
  Outcome, ok, err, panic, Done, Action, after, reading, raise_if, ◌>>=◌, ◌>>◌, invalid_authority,
  invalid_signer,
}
use stable_coin.Sdk.{Sdk}
use stable_coin.Types.Params.{ParamsCodec, validate}
use stable_coin.Types.Messages.{MsgUpdateParams}
use stable_coin.Keeper.State.{World, Keeper, get_authority, set_params}

-- `errorsmod.Wrap(err, "invalid authority address")`
abbrev as_invalid_authority : Outcome Bytes → Outcome Bytes
as_invalid_authority (ok a) = ok a
as_invalid_authority (err e) = err invalid_authority
as_invalid_authority panic = panic

module _ (k : Sdk) (keeper : Keeper) where
  -- What is tested before the write.
  unfoldable pub update_checks : MsgUpdateParams → Outcome Done
  update_checks req = do
    authority ← as_invalid_authority (k.string_to_bytes req.authority)
    raise_if (not (bytes_eq (get_authority keeper) authority)) invalid_signer
    validate k req.params

  unfoldable pub update_params : ParamsCodec → MsgUpdateParams → Action (World k) Done
  update_params c req w = after (reading (λ _. update_checks req) w) λ _. set_params k c req.params
