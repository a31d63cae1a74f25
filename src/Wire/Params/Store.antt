-- ===== src/Wire/Params/Store.antt =====
-- The codec of the parameters' item in the store (codec.CollValue in NewKeeper): it calls the
-- generated Marshal and Unmarshal.
use stable_coin.Prelude.{◌≡◌, Bytes, Option, none, some, arith}
use stable_coin.Go.Outcome.{Outcome, ok, err, panic, external}
use stable_coin.Types.Params.{Params, zero_params, ParamsCodec, CodecLaws}
use stable_coin.Wire.Result.{Result, ok, fail}
use stable_coin.Wire.Params.{marshal, unmarshal}
use stable_coin.Wire.Params.RoundTrip.{unmarshal-marshal}

abbrev encoded : Option Bytes → Outcome Bytes
encoded none = panic
encoded (some bz) = ok bz

abbrev decoded : Result Params → Outcome Params
decoded (ok p) = ok p
decoded (fail e) = err (external 6)

unfoldable pub params_codec : ParamsCodec
params_codec = record {
  encode = λ p. encoded (marshal p);
  decode = λ bz. decoded (unmarshal zero_params bz);
}

encoded-eq-ok : (r : Option Bytes) {bz : Bytes} → encoded r ≡ ok bz → r ≡ some bz
encoded-eq-ok none h = cc
encoded-eq-ok (some bz) h = ground arith

-- The generated code keeps the promise that the keeper's theorems ask of a codec: parameters that
-- were encoded are decoded again.
pub params_codec-CodecLaws : CodecLaws params_codec
unfolding params_codec
params_codec-CodecLaws = record {
  decode-encode = λ p bz h. rw (unmarshal-marshal p bz (encoded-eq-ok (marshal p) h));
}
