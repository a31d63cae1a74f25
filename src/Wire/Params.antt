-- ===== src/Wire/Params.antt =====
-- types/params.pb.go: the encoding of Params, and Equal.
pub mod RoundTrip
pub mod Store
pub mod Equal
use stable_coin.Prelude.{
  ℕ, ◌+◌, Bytes, Option, none, some, Bool, true, false, ◌==◌, ◌&&◌, not, bytes_eq, if◌then◌else◌,
}
use stable_coin.Types.Params.{Params, zero_params}
use stable_coin.Wire.Result.{Result, ok, ◌>>=◌}
use stable_coin.Wire.Buffer.{
  Op, ◌then_write◌, put_string, put_bool, string_size, bool_size, to_sized_buffer, marshal_with,
}
use stable_coin.Wire.Decode.{Fields, field, read_string, read_bool, unmarshal_with}

-- `==` on bools.
unfoldable pub same_flag : Bool → Bool → Bool
same_flag a b = if a then b else not b

-- (*Params).Equal, on two values.
unfoldable pub equal : Params → Params → Bool
equal this that =
    if not (bytes_eq this.issuer that.issuer)
    then false
    else if not (bytes_eq this.denom that.denom)
    then false
    else if not (same_flag this.paused that.paused)
    then false
    else if not (bytes_eq this.max_supply that.max_supply)
    then false
    else true

unfoldable pub size : Params → ℕ
size m = string_size m.issuer + string_size m.denom + bool_size m.paused + string_size m.max_supply

-- The statements of `MarshalToSizedBuffer`, from the last field to the first.
unfoldable pub write : Params → Op
write m =
    put_string 0x22 m.max_supply
    then_write put_bool 0x18 m.paused
    then_write put_string 0x12 m.denom
    then_write put_string 0xa m.issuer

unfoldable pub marshal_to_sized_buffer : Params → Bytes → Option (Bytes × ℕ)
marshal_to_sized_buffer m = to_sized_buffer (write m)

unfoldable pub marshal : Params → Option Bytes
marshal m = marshal_with (size m) (marshal_to_sized_buffer m)

-- `switch fieldNum`
unfoldable pub fields : Fields Params
fields l field_num wire_type m index rest =
    if field_num == 1
    then field (read_string l wire_type index rest) (λ s. record m { issuer = s })
    else if field_num == 2
    then field (read_string l wire_type index rest) (λ s. record m { denom = s })
    else if field_num == 3
    then field (read_bool wire_type index rest) (λ b. record m { paused = b })
    else if field_num == 4
    then field (read_string l wire_type index rest) (λ s. record m { max_supply = s })
    else ok none

-- `m.Unmarshal(dAtA)`
unfoldable pub unmarshal : Params → Bytes → Result Params
unmarshal = unmarshal_with fields
