-- ===== src/Wire/Params/RoundTrip.antt =====
-- Params: writing against reading, and `Size` against both.
use stable_coin.Prelude.{ℕ, ◌^◌, ◌<◌, ◌≡◌, refl, Bytes, ◌++◌, some, length, arith, length-append}
use stable_coin.Types.Params.{Params, zero_params}
use stable_coin.Wire.Result.{ok}
use stable_coin.Wire.Buffer.{put_message}
use stable_coin.Wire.Buffer.Writes.{Writes, then_write-Writes}
use stable_coin.Wire.Buffer.Fields.{
  string_field, bool_field, put_string-Writes, put_bool-Writes, message_field, put_message-Writes,
  to_sized_buffer-Writes,
}
use stable_coin.Wire.Decode.Step.{is_tag, Reads, append-Reads}
use stable_coin.Wire.Decode.Fields.{string_field-Reads, bool_field-Reads}
use stable_coin.Wire.Message.{
  Layout, length-string_field, length-bool_field, string_size_le, round_trip, read_back,
}
use stable_coin.Wire.Params.{size, write, marshal, marshal_to_sized_buffer, fields, unmarshal}

-- The wire format: the fields in order, those with the zero value left out.
unfoldable pub encoding : Params → Bytes
encoding m =
    string_field 0xa m.issuer
    ++ (string_field 0x12 m.denom ++ (bool_field 0x18 m.paused ++ string_field 0x22 m.max_supply))

pub length-encoding : (m : Params) → size m < 2 ^ 63 → size m ≡ length (encoding m)
unfolding size encoding
length-encoding m h =
    let i = string_size_le m.issuer in
    let d = string_size_le m.denom in
    let x = string_size_le m.max_supply in
    omega (
      arith,
      length-append (string_field 0xa m.issuer) (
          string_field 0x12 m.denom
          ++ (bool_field 0x18 m.paused ++ string_field 0x22 m.max_supply)),
      length-append (string_field 0x12 m.denom)
          (bool_field 0x18 m.paused ++ string_field 0x22 m.max_supply),
      length-append (bool_field 0x18 m.paused) (string_field 0x22 m.max_supply),
      length-string_field 0xa m.issuer (omega arith),
      length-string_field 0x12 m.denom (omega arith),
      length-bool_field 0x18 m.paused,
      length-string_field 0x22 m.max_supply (omega arith),
    )

pub write-Writes : (m : Params) → size m < 2 ^ 63 → Writes (write m) (encoding m)
unfolding size write encoding
write-Writes m h =
    let i = string_size_le m.issuer in
    let d = string_size_le m.denom in
    let x = string_size_le m.max_supply in
    then_write-Writes
      (then_write-Writes
        (then_write-Writes (put_string-Writes 0x22 m.max_supply (omega arith))
          (put_bool-Writes 0x18 m.paused))
        (put_string-Writes 0x12 m.denom (omega arith)))
      (put_string-Writes 0xa m.issuer (omega arith))

pub encoding-Reads : (m : Params) → Reads fields zero_params (encoding m) m
unfolding encoding fields
encoding-Reads m =
    let m1 : Params = record zero_params { issuer = m.issuer } in
    let m2 : Params = record m1 { denom = m.denom } in
    let m3 : Params = record m2 { paused = m.paused } in
    append-Reads fields
      (string_field-Reads fields 0xa zero_params (λ s. record zero_params { issuer = s })
        (is_tag 0xa refl) refl (λ l i rest. refl) refl m.issuer)
      (append-Reads fields
        (string_field-Reads fields 0x12 m1 (λ s. record m1 { denom = s }) (is_tag 0x12 refl) refl
          (λ l i rest. refl) refl m.denom)
        (append-Reads fields
          (bool_field-Reads fields 0x18 m2 (λ b. record m2 { paused = b }) (is_tag 0x18 refl) refl
            (λ l i rest. refl) refl m.paused)
          (string_field-Reads fields 0x22 m3 (λ s. record m3 { max_supply = s }) (is_tag 0x22 refl)
            refl (λ l i rest. refl) refl m.max_supply)))

pub layout :
    (m : Params) → size m < 2 ^ 63 → Layout (size m) (write m) fields zero_params m (encoding m)
layout m h = record {
  written = write-Writes m h;
  sized = length-encoding m h;
  read = encoding-Reads m;
}

-- Params whose size is an int are marshalled without a panic, to as many bytes as Size announces,
-- and Unmarshal reads them back from these into a fresh value.
pub round_trip_params :
    (m : Params)
    → size m < 2 ^ 63
    → (bz : Bytes) × (marshal m ≡ some bz)
      × (size m ≡ length bz)
      × (unmarshal zero_params bz ≡ ok m)
unfolding marshal marshal_to_sized_buffer unmarshal
round_trip_params m h = round_trip (layout m h) h

-- What Marshal returns is read back by Unmarshal on a fresh value.
pub unmarshal-marshal :
    (m : Params) (bz : Bytes) → marshal m ≡ some bz → unmarshal zero_params bz ≡ ok m
unfolding marshal marshal_to_sized_buffer unmarshal
unmarshal-marshal m bz h = read_back (layout m) bz h

-- Params inside another message.
pub params_field-Writes :
    (t : ℕ) (m : Params)
    → size m < 2 ^ 63
    → Writes (put_message t (marshal_to_sized_buffer m)) (message_field t (encoding m))
unfolding marshal_to_sized_buffer
params_field-Writes t m h =
    let n = length-encoding m h in
    put_message-Writes t (marshal_to_sized_buffer m) (encoding m)
      (λ front old e. to_sized_buffer-Writes front old (write-Writes m h) e) (omega arith)
