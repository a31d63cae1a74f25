-- ===== src/Types/Messages.antt =====
-- The request messages of types/tx.pb.go. The responses are empty structs.
use stable_coin.Prelude.{Bytes}
use stable_coin.Types.Params.{Params}

pub record MsgMint : Type 0 where
  pub authority : Bytes
  pub to_address : Bytes
  pub amount : Bytes

pub record MsgBurn : Type 0 where
  pub authority : Bytes
  pub from_address : Bytes
  pub amount : Bytes

pub record MsgUpdateParams : Type 0 where
  pub authority : Bytes
  pub params : Params
