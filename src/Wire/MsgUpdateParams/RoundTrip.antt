-- ===== src/Wire/MsgUpdateParams/RoundTrip.antt =====
-- MsgUpdateParams: writing against reading.
use stable_coin.Prelude.{◌^◌, ◌<◌, ◌≡◌, refl, Bytes, ◌++◌, some, length, length-append, arith}
use stable_coin.Types.Params.{zero_params}
use stable_coin.Types.Messages.{MsgUpdateParams}
use stable_coin.Wire.Result.{ok}
use stable_coin.Wire.Buffer.Writes.{then_write-Writes}
use stable_coin.Wire.Buffer.Fields.{string_field, message_field, put_string-Writes}
use stable_coin.Wire.Decode.Step.{is_tag, Reads, append-Reads}
use stable_coin.Wire.Decode.Fields.{string_field-Reads, message_field-Reads}
use stable_coin.Wire.Message.{
  Layout, length-string_field, length-message_field, string_size_le, message_size_le, round_trip,
}
use stable_coin.Wire.Params
use stable_coin.Wire.Params.RoundTrip.{
  encoding, length-encoding, encoding-Reads, params_field-Writes,
}
use stable_coin.Wire.MsgUpdateParams.{zero_message, size, write, marshal, fields, unmarshal}

unfoldable update_encoding : MsgUpdateParams → Bytes
update_encoding m = string_field 0xa m.authority ++ message_field 0x12 (encoding m.params)

update_encoding-Reads : (m : MsgUpdateParams) → Reads fields zero_message (update_encoding m) m
unfolding update_encoding fields
update_encoding-Reads m =
    let m1 : MsgUpdateParams = record zero_message { authority = m.authority } in
    append-Reads fields
      (string_field-Reads fields 0xa zero_message (λ s. record zero_message { authority = s })
        (is_tag 0xa refl) refl (λ l i rest. refl) refl m.authority)
      (message_field-Reads fields Params.fields 0x12 m1 zero_params m.params
        (λ p. record m1 { params = p }) (is_tag 0x12 refl) refl (λ l i rest. refl)
        (encoding m.params) (encoding-Reads m.params))

layout :
    (m : MsgUpdateParams)
    → size m < 2 ^ 63
    → Layout (size m) (write m) fields zero_message m (update_encoding m)
unfolding size write update_encoding
layout m h =
    let inner = message_size_le (Params.size m.params) in
    let outer = string_size_le m.authority in
    let sized = length-encoding m.params (omega arith) in
    let whole = length-message_field 0x12 (encoding m.params) (omega arith) in
    record {
      written =
          then_write-Writes (params_field-Writes 0x12 m.params (omega arith))
            (put_string-Writes 0xa m.authority (omega arith));
      sized = rw (
        sized,
        length-append (string_field 0xa m.authority) (message_field 0x12 (encoding m.params)),
        whole,
        length-string_field 0xa m.authority (omega arith),
      );
      read = update_encoding-Reads m;
    }

-- A MsgUpdateParams whose size is an int is marshalled without a panic, to as many bytes as Size
-- announces, and Unmarshal reads it back from them into a fresh value.
pub round_trip_update :
    (m : MsgUpdateParams)
    → size m < 2 ^ 63
    → (bz : Bytes) × (marshal m ≡ some bz)
      × (size m ≡ length bz)
      × (unmarshal zero_message bz ≡ ok m)
unfolding marshal unmarshal
round_trip_update m h = round_trip (layout m h) h
