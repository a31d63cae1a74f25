-- ===== src/Wire/QueryParamsResponse/RoundTrip.antt =====
-- QueryParamsResponse: writing against reading.
use stable_coin.Prelude.{◌^◌, ◌<◌, ◌≡◌, refl, Bytes, some, length, arith}
use stable_coin.Types.Params.{zero_params}
use stable_coin.Wire.Result.{ok}
use stable_coin.Wire.Buffer.Fields.{message_field}
use stable_coin.Wire.Decode.Step.{is_tag}
use stable_coin.Wire.Decode.Fields.{message_field-Reads}
use stable_coin.Wire.Message.{Layout, length-message_field, message_size_le, round_trip}
use stable_coin.Wire.Params
use stable_coin.Wire.Params.RoundTrip.{
  encoding, length-encoding, encoding-Reads, params_field-Writes,
}
use stable_coin.Wire.QueryParamsResponse.{
  QueryParamsResponse, zero_message, size, write, marshal, fields, unmarshal,
}

layout :
    (m : QueryParamsResponse)
    → size m < 2 ^ 63
    → Layout (size m) (write m) fields zero_message m (message_field 0xa (encoding m.params))
unfolding size write fields
layout m h =
    let inner = message_size_le (Params.size m.params) in
    let sized = length-encoding m.params (omega arith) in
    record {
      written = params_field-Writes 0xa m.params (omega arith);
      sized = rw (sized, length-message_field 0xa (encoding m.params) (omega arith));
      read =
          message_field-Reads fields Params.fields 0xa zero_message zero_params m.params
            (λ p. record { params = p }) (is_tag 0xa refl) refl (λ l i rest. refl)
            (encoding m.params) (encoding-Reads m.params);
    }

-- A QueryParamsResponse whose size is an int is marshalled without a panic, to as many bytes as
-- Size announces, and Unmarshal reads it back from them into a fresh value.
pub round_trip_query :
    (m : QueryParamsResponse)
    → size m < 2 ^ 63
    → (bz : Bytes) × (marshal m ≡ some bz)
      × (size m ≡ length bz)
      × (unmarshal zero_message bz ≡ ok m)
unfolding marshal unmarshal
round_trip_query m h = round_trip (layout m h) h
