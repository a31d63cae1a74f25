-- ===== src/Wire/MsgMint/RoundTrip.antt =====
-- MsgMint: writing against reading.
use stable_coin.Prelude.{◌^◌, ◌<◌, ◌≡◌, refl, Bytes, some, length}
use stable_coin.Types.Messages.{MsgMint}
use stable_coin.Wire.Result.{ok}
use stable_coin.Wire.Decode.Step.{is_tag, Reads, append-Reads}
use stable_coin.Wire.Decode.Fields.{string_field-Reads}
use stable_coin.Wire.Message.{
  Layout, three_strings, three_strings_size, three_strings-Writes, round_trip,
}
use stable_coin.Wire.MsgMint.{zero_message, size, write, marshal, fields, unmarshal}

unfoldable encoding : MsgMint → Bytes
encoding m = three_strings m.authority m.to_address m.amount

encoding-Reads : (m : MsgMint) → Reads fields zero_message (encoding m) m
unfolding encoding fields three_strings
encoding-Reads m =
    let m1 : MsgMint = record zero_message { authority = m.authority } in
    let m2 : MsgMint = record m1 { to_address = m.to_address } in
    append-Reads fields
      (string_field-Reads fields 0xa zero_message (λ s. record zero_message { authority = s })
        (is_tag 0xa refl) refl (λ l i rest. refl) refl m.authority)
      (append-Reads fields
        (string_field-Reads fields 0x12 m1 (λ s. record m1 { to_address = s }) (is_tag 0x12 refl)
          refl (λ l i rest. refl) refl m.to_address)
        (string_field-Reads fields 0x1a m2 (λ s. record m2 { amount = s }) (is_tag 0x1a refl) refl
          (λ l i rest. refl) refl m.amount))

layout :
    (m : MsgMint) → size m < 2 ^ 63 → Layout (size m) (write m) fields zero_message m (encoding m)
unfolding encoding size write
layout m h = record {
  written = three_strings-Writes m.authority m.to_address m.amount h;
  sized = three_strings_size m.authority m.to_address m.amount h;
  read = encoding-Reads m;
}

-- A MsgMint whose size is an int is marshalled without a panic, to as many bytes as Size
-- announces, and Unmarshal reads it back from them into a fresh value.
pub round_trip_mint :
    (m : MsgMint)
    → size m < 2 ^ 63
    → (bz : Bytes) × (marshal m ≡ some bz)
      × (size m ≡ length bz)
      × (unmarshal zero_message bz ≡ ok m)
unfolding marshal unmarshal
round_trip_mint m h = round_trip (layout m h) h
