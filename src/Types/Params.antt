-- ===== src/Types/Params.antt =====
-- types/params.go, the struct of types/params.pb.go and types/keys.go.
pub mod Valid
use stable_coin.Prelude.{◌≡◌, Bool, false, Bytes, [], ◌∷◌, not}
use stable_coin.Go.Outcome.{
  Outcome, ok, err, panic, Done, raise_if, or_raise, ◌>>=◌, ◌>>◌, invalid_denom, invalid_issuer,
  invalid_max_supply,
}
use stable_coin.Go.Strings.{lit, is_blank}
use stable_coin.Sdk.{Sdk}

pub record Params : Type 0 where
  pub issuer : Bytes
  pub denom : Bytes
  pub paused : Bool
  pub max_supply : Bytes

-- The zero value of the struct.
abbrev pub zero_params : Params
zero_params = record { issuer = []; denom = []; paused = false; max_supply = [] }

unfoldable pub new_params : Bytes → Bytes → Bool → Bytes → Params
new_params issuer denom paused max_supply = record {
  issuer = issuer;
  denom = denom;
  paused = paused;
  max_supply = max_supply;
}

unfoldable pub default_params : Params
default_params = record {
  issuer = lit "cosmos19jvll7zgcj6fafavwa8e5gns77shtt8dr430g8";
  denom = lit "ustb";
  paused = false;
  max_supply = lit "1000000000000000";
}

-- ModuleName, which is the store key too, and GovModuleName.
abbrev pub module_name : Bytes
module_name = lit "stablecoin"

abbrev pub gov_module_name : Bytes
gov_module_name = lit "gov"

-- collections.NewPrefix(1) is the one byte 1.
abbrev pub params_key : Bytes
params_key = 1 ∷ []

abbrev pub total_supply_key : Bytes
total_supply_key = 0x10 ∷ []

-- An error of the address parser is replaced by `invalid_issuer`.
abbrev pub as_invalid_issuer : Outcome Bytes → Outcome Done
as_invalid_issuer (ok a) = ok tt
as_invalid_issuer (err e) = err invalid_issuer
as_invalid_issuer panic = panic

module _ (k : Sdk) where
  -- Params.Validate
  unfoldable pub validate : Params → Outcome Done
  validate p = do
    raise_if (is_blank p.denom) invalid_denom
    raise_if (is_blank p.issuer) invalid_issuer
    as_invalid_issuer (k.acc_address_from_bech32 p.issuer)
    raise_if (is_blank p.max_supply) invalid_max_supply
    max ← or_raise (k.new_int_from_string p.max_supply) invalid_max_supply
    raise_if (not (k.int_is_positive max)) invalid_max_supply

-- How parameters are laid out in the store: codec.CollValue over the generated Marshal and
-- Unmarshal of types/params.pb.go. The keeper takes it as an interface.
pub record ParamsCodec : Type 0 where
  pub encode : Params → Outcome Bytes
  pub decode : Bytes → Outcome Params

-- What was written is read back.
pub record CodecLaws (c : ParamsCodec) : Type 0 where
  pub decode-encode : (p : Params) (bz : Bytes) → c.encode p ≡ ok bz → c.decode bz ≡ ok p
