-- ===== src/Tests/Scenario.antt =====
-- The states and messages of the tests: alice is the issuer, bob holds coins, mallory is a
-- stranger.
use stable_coin.Prelude.{ℕ, ◌≡◌, refl, List, [], ◌∷◌, none, false, true}
use stable_coin.Prelude.Int.{pos}
use stable_coin.Go.Outcome.{ok}
use stable_coin.Go.Strings.{lit}
use stable_coin.Sdk.{Coin}
use stable_coin.Types.Params.{Params, params_key, total_supply_key}
use stable_coin.Types.Messages.{MsgMint, MsgBurn, MsgUpdateParams}
use stable_coin.Keeper.State.{World, Keeper, get_params}
use stable_coin.Wire.Varint.{read_varint}
use stable_coin.Wire.Varint.Size.{groups}
use stable_coin.Wire.Buffer.Fields.{string_field, bool_field}
use stable_coin.Wire.Decode.{read_string, read_bool, or_skip, unmarshal_loop, unmarshal_with}
use stable_coin.Wire.Params.{fields, unmarshal}
use stable_coin.Wire.Params.RoundTrip.{encoding}
use stable_coin.Wire.Params.Store.{params_codec}
use stable_coin.Example.Ledger.{Ledger}
use stable_coin.Example.Chain.{chain, Values, set_value}

abbrev pub terms : Params
terms = record { issuer = lit "alice"; denom = lit "ustb"; paused = false; max_supply = lit "1000" }

abbrev pub halted_terms : Params
halted_terms = record terms { paused = true }

abbrev pub gov_keeper : Keeper
gov_keeper = record { authority = lit "gov" }

abbrev pub no_values : Values
no_values key = none

abbrev pub with_params : Params → Values → Values
with_params p s = set_value params_key (encoding p) s

-- Nothing stored; the parameters stored; and a counter of 400 with bob's coins beside them.
abbrev pub empty_world : World chain
empty_world = record { store = no_values; bank = [] }

abbrev pub fresh_world : World chain
fresh_world = record { store = with_params terms no_values; bank = [] }

abbrev pub halted_world : World chain
halted_world = record { store = with_params halted_terms no_values; bank = [] }

abbrev pub held : Ledger
held = record { owner = lit "bob"; denom = lit "ustb"; change = pos 400 } ∷ []

abbrev pub counted_world : World chain
counted_world = record {
  store = set_value total_supply_key (lit "400") (with_params terms no_values);
  bank = held;
}

pub fresh_stored : get_params chain params_codec fresh_world ≡ ok (terms, none)
unfolding get_params params_codec unmarshal unmarshal_with unmarshal_loop read_varint read_string
    read_bool fields or_skip encoding string_field bool_field groups
fresh_stored = refl

pub halted_stored : get_params chain params_codec halted_world ≡ ok (halted_terms, none)
unfolding get_params params_codec unmarshal unmarshal_with unmarshal_loop read_varint read_string
    read_bool fields or_skip encoding string_field bool_field groups
halted_stored = refl

pub counted_stored : get_params chain params_codec counted_world ≡ ok (terms, none)
unfolding get_params params_codec unmarshal unmarshal_with unmarshal_loop read_varint read_string
    read_bool fields or_skip encoding string_field bool_field groups
counted_stored = refl

abbrev pub mint_250 : MsgMint
mint_250 = record { authority = lit "alice"; to_address = lit "bob"; amount = lit "250" }

abbrev pub burn_150 : MsgBurn
burn_150 = record { authority = lit "alice"; from_address = lit "bob"; amount = lit "150" }

abbrev pub stolen_mint : MsgMint
stolen_mint = record mint_250 { authority = lit "mallory" }

abbrev pub stolen_burn : MsgBurn
stolen_burn = record burn_150 { authority = lit "mallory" }

abbrev pub new_terms : MsgUpdateParams
new_terms = record { authority = lit "gov"; params = record terms { max_supply = lit "900" } }

abbrev pub coins : ℕ → List Coin
coins n = record { denom = lit "ustb"; amount = pos n } ∷ []
