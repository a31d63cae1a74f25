-- ===== src/Wire/ModuleConfig.antt =====
-- types/module.pb.go: the encoding of the module's configuration.
pub mod RoundTrip
use stable_coin.Prelude.{ℕ, Bytes, [], Option, none, ◌==◌, if◌then◌else◌}
use stable_coin.Wire.Result.{Result, ok, ◌>>=◌}
use stable_coin.Wire.Buffer.{Op, put_string, string_size, to_sized_buffer, marshal_with}
use stable_coin.Wire.Decode.{Fields, field, read_string, unmarshal_with}

-- Module
pub record ModuleConfig : Type 0 where
  pub authority : Bytes

-- The zero value of the struct.
abbrev pub zero_message : ModuleConfig
zero_message = record { authority = [] }

unfoldable pub size : ModuleConfig → ℕ
size m = string_size m.authority

unfoldable pub write : ModuleConfig → Op
write m = put_string 0xa m.authority

unfoldable pub marshal : ModuleConfig → Option Bytes
marshal m = marshal_with (size m) (to_sized_buffer (write m))

-- `switch fieldNum`
unfoldable pub fields : Fields ModuleConfig
fields l field_num wire_type m index rest =
    if field_num == 1
    then field (read_string l wire_type index rest) (λ s. record m { authority = s })
    else ok none

-- `m.Unmarshal(dAtA)`
unfoldable pub unmarshal : ModuleConfig → Bytes → Result ModuleConfig
unmarshal = unmarshal_with fields
