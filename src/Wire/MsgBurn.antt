-- ===== src/Wire/MsgBurn.antt =====
-- types/tx.pb.go: the encoding of MsgBurn.
pub mod RoundTrip
use stable_coin.Prelude.{ℕ, ◌+◌, Bytes, [], Option, none, ◌==◌, if◌then◌else◌}
use stable_coin.Types.Messages.{MsgBurn}
use stable_coin.Wire.Result.{Result, ok, ◌>>=◌}
use stable_coin.Wire.Buffer.{
  Op, ◌then_write◌, put_string, string_size, to_sized_buffer, marshal_with,
}
use stable_coin.Wire.Decode.{Fields, field, read_string, unmarshal_with}

-- The zero value of the struct.
abbrev pub zero_message : MsgBurn
zero_message = record { authority = []; from_address = []; amount = [] }

unfoldable pub size : MsgBurn → ℕ
size m = string_size m.authority + string_size m.from_address + string_size m.amount

-- The statements of `MarshalToSizedBuffer`, from the last field to the first.
unfoldable pub write : MsgBurn → Op
write m =
    put_string 0x1a m.amount
    then_write put_string 0x12 m.from_address
    then_write put_string 0xa m.authority

unfoldable pub marshal : MsgBurn → Option Bytes
marshal m = marshal_with (size m) (to_sized_buffer (write m))

-- `switch fieldNum`
unfoldable pub fields : Fields MsgBurn
fields l field_num wire_type m index rest =
    if field_num == 1
    then field (read_string l wire_type index rest) (λ s. record m { authority = s })
    else if field_num == 2
    then field (read_string l wire_type index rest) (λ s. record m { from_address = s })
    else if field_num == 3
    then field (read_string l wire_type index rest) (λ s. record m { amount = s })
    else ok none

-- `m.Unmarshal(dAtA)`
unfoldable pub unmarshal : MsgBurn → Bytes → Result MsgBurn
unmarshal = unmarshal_with fields
