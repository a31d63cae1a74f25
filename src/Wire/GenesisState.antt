-- ===== src/Wire/GenesisState.antt =====
-- types/genesis.pb.go: the encoding of GenesisState.
pub mod RoundTrip
use stable_coin.Prelude.{ℕ, Bytes, Option, none, ◌==◌, if◌then◌else◌}
use stable_coin.Types.Params.{Params, zero_params}
use stable_coin.Types.Genesis.{GenesisState}
use stable_coin.Wire.Result.{Result, ok, ◌>>=◌}
use stable_coin.Wire.Buffer.{Op, put_message, message_size, to_sized_buffer, marshal_with}
use stable_coin.Wire.Decode.{Fields, field, read_message, unmarshal_with}
use stable_coin.Wire.Params

-- The zero value of the struct.
abbrev pub zero_message : GenesisState
zero_message = record { params = zero_params }

unfoldable pub size : GenesisState → ℕ
size m = message_size (Params.size m.params)

unfoldable pub write : GenesisState → Op
write m = put_message 0xa (Params.marshal_to_sized_buffer m.params)

unfoldable pub marshal : GenesisState → Option Bytes
marshal m = marshal_with (size m) (to_sized_buffer (write m))

-- `switch fieldNum`
unfoldable pub fields : Fields GenesisState
fields l field_num wire_type m index rest =
    if field_num == 1
    then field (read_message Params.fields m.params l wire_type index rest)
        (λ p. record m { params = p })
    else ok none

-- `m.Unmarshal(dAtA)`
unfoldable pub unmarshal : GenesisState → Bytes → Result GenesisState
unmarshal = unmarshal_with fields
