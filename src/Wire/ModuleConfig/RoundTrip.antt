-- ===== src/Wire/ModuleConfig/RoundTrip.antt =====
-- Module: writing against reading.
use stable_coin.Prelude.{◌^◌, ◌<◌, ◌≡◌, refl, sym, Bytes, some, length, arith}
use stable_coin.Wire.Result.{ok}
use stable_coin.Wire.Buffer.Fields.{string_field, put_string-Writes}
use stable_coin.Wire.Decode.Step.{is_tag}
use stable_coin.Wire.Decode.Fields.{string_field-Reads}
use stable_coin.Wire.Message.{Layout, length-string_field, string_size_le, round_trip}
use stable_coin.Wire.ModuleConfig.{
  ModuleConfig, zero_message, size, write, marshal, fields, unmarshal,
}

layout :
    (m : ModuleConfig)
    → size m < 2 ^ 63
    → Layout (size m) (write m) fields zero_message m (string_field 0xa m.authority)
unfolding size write fields
layout m h =
    let long = string_size_le m.authority in
    record {
      written = put_string-Writes 0xa m.authority (omega arith);
      sized = sym (length-string_field 0xa m.authority (omega arith));
      read =
          string_field-Reads fields 0xa zero_message (λ s. record { authority = s })
            (is_tag 0xa refl) refl (λ l i rest. refl) refl m.authority;
    }

-- A Module whose size is an int is marshalled without a panic, to as many bytes as Size announces,
-- and Unmarshal reads it back from them into a fresh value.
pub round_trip_module :
    (m : ModuleConfig)
    → size m < 2 ^ 63
    → (bz : Bytes) × (marshal m ≡ some bz)
      × (size m ≡ length bz)
      × (unmarshal zero_message bz ≡ ok m)
unfolding marshal unmarshal
round_trip_module m h = round_trip (layout m h) h
