-- ===== src/Wire/QueryParamsResponse.antt =====
-- types/query.pb.go: the encoding of QueryParamsResponse.
pub mod RoundTrip
use stable_coin.Prelude.{ℕ, Bytes, Option, none, ◌==◌, if◌then◌else◌}
use stable_coin.Types.Params.{Params, zero_params}
use stable_coin.Wire.Result.{Result, ok, ◌>>=◌}
use stable_coin.Wire.Buffer.{Op, put_message, message_size, to_sized_buffer, marshal_with}
use stable_coin.Wire.Decode.{Fields, field, read_message, unmarshal_with}
use stable_coin.Wire.Params

pub record QueryParamsResponse : Type 0 where
  pub params : Params

-- The zero value of the struct.
abbrev pub zero_message : QueryParamsResponse
zero_message = record { params = zero_params }

unfoldable pub size : QueryParamsResponse → ℕ
size m = message_size (Params.size m.params)

unfoldable pub write : QueryParamsResponse → Op
write m = put_message 0xa (Params.marshal_to_sized_buffer m.params)

unfoldable pub marshal : QueryParamsResponse → Option Bytes
marshal m = marshal_with (size m) (to_sized_buffer (write m))

-- `switch fieldNum`
unfoldable pub fields : Fields QueryParamsResponse
fields l field_num wire_type m index rest =
    if field_num == 1
    then field (read_message Params.fields m.params l wire_type index rest)
        (λ p. record m { params = p })
    else ok none

-- `m.Unmarshal(dAtA)`
unfoldable pub unmarshal : QueryParamsResponse → Bytes → Result QueryParamsResponse
unmarshal = unmarshal_with fields
