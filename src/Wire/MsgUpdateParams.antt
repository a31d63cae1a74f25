-- ===== src/Wire/MsgUpdateParams.antt =====
-- types/tx.pb.go: the encoding of MsgUpdateParams.
pub mod RoundTrip
use stable_coin.Prelude.{ℕ, ◌+◌, Bytes, [], Option, none, ◌==◌, if◌then◌else◌}
use stable_coin.Types.Params.{zero_params}
use stable_coin.Types.Messages.{MsgUpdateParams}
use stable_coin.Wire.Result.{Result, ok, ◌>>=◌}
use stable_coin.Wire.Buffer.{
  Op, ◌then_write◌, put_string, put_message, string_size, message_size, to_sized_buffer,
  marshal_with,
}
use stable_coin.Wire.Decode.{Fields, field, read_string, read_message, unmarshal_with}
use stable_coin.Wire.Params

-- The zero value of the struct.
abbrev pub zero_message : MsgUpdateParams
zero_message = record { authority = []; params = zero_params }

unfoldable pub size : MsgUpdateParams → ℕ
size m = string_size m.authority + message_size (Params.size m.params)

-- The statements of `MarshalToSizedBuffer`; the parameters are written even when they are zero.
unfoldable pub write : MsgUpdateParams → Op
write m =
    put_message 0x12 (Params.marshal_to_sized_buffer m.params) then_write put_string 0xa m.authority

unfoldable pub marshal : MsgUpdateParams → Option Bytes
marshal m = marshal_with (size m) (to_sized_buffer (write m))

-- `switch fieldNum`
unfoldable pub fields : Fields MsgUpdateParams
fields l field_num wire_type m index rest =
    if field_num == 1
    then field (read_string l wire_type index rest) (λ s. record m { authority = s })
    else if field_num == 2
    then field (read_message Params.fields m.params l wire_type index rest)
        (λ p. record m { params = p })
    else ok none

-- `m.Unmarshal(dAtA)`
unfoldable pub unmarshal : MsgUpdateParams → Bytes → Result MsgUpdateParams
unmarshal = unmarshal_with fields
