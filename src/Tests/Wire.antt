-- ===== src/Tests/Wire.antt =====
-- The encoding at concrete messages.
use stable_coin.Prelude.{◌≡◌, ◌≢◌, Bytes, [], ◌∷◌, some, length, arith}
use stable_coin.Go.Strings.{lit}
use stable_coin.Types.Params.{Params, zero_params}
use stable_coin.Types.Messages.{MsgMint, MsgBurn, MsgUpdateParams}
use stable_coin.Types.Genesis.{GenesisState}
use stable_coin.Wire.Result
use stable_coin.Wire.Result.{fail, stuck, unexpected_eof}
use stable_coin.Wire.Varint.{sov, len_bits}
use stable_coin.Wire.Buffer.{string_size, bool_size, message_size}
use stable_coin.Wire.Params
use stable_coin.Wire.Params.RoundTrip.{round_trip_params}
use stable_coin.Wire.MsgMint as Mint
use stable_coin.Wire.MsgBurn as Burn
use stable_coin.Wire.MsgUpdateParams as Update
use stable_coin.Wire.GenesisState as Genesis
use stable_coin.Wire.QueryParamsResponse as Response
use stable_coin.Wire.ModuleConfig as Config
use stable_coin.Wire.Messages.{IsReadBack, messages_round_trip}
use stable_coin.Wire.Total.{unmarshal_ends}
use stable_coin.Tests.Scenario.{terms, halted_terms, mint_250, burn_150, new_terms}

round_trip_params_example :
    (bz : Bytes) × (Params.marshal halted_terms ≡ some bz)
    × (Params.size halted_terms ≡ length bz)
    × (Params.unmarshal zero_params bz ≡ Result.ok halted_terms)
unfolding Params.size string_size bool_size sov len_bits
round_trip_params_example = round_trip_params halted_terms (omega arith)

abbrev genesis : GenesisState
genesis = record { params = terms }

abbrev response : Response.QueryParamsResponse
response = record { params = halted_terms }

abbrev config : Config.ModuleConfig
config = record { authority = lit "gov" }

messages_round_trip_example :
    IsReadBack Mint.marshal Mint.size Mint.unmarshal Mint.zero_message mint_250
    × IsReadBack Burn.marshal Burn.size Burn.unmarshal Burn.zero_message burn_150
    × IsReadBack Update.marshal Update.size Update.unmarshal Update.zero_message new_terms
    × IsReadBack Genesis.marshal Genesis.size Genesis.unmarshal Genesis.zero_message genesis
    × IsReadBack Response.marshal Response.size Response.unmarshal Response.zero_message response
    × IsReadBack Config.marshal Config.size Config.unmarshal Config.zero_message config
unfolding Mint.size Burn.size Update.size Genesis.size Response.size Config.size Params.size
    string_size bool_size message_size sov len_bits
messages_round_trip_example =
    messages_round_trip mint_250 burn_150 new_terms genesis response config (omega arith)
      (omega arith) (omega arith) (omega arith) (omega arith) (omega arith)

-- A field that announces more bytes than there are.
abbrev torn : Bytes
torn = 0xa ∷ 0x5 ∷ 0x61 ∷ []

unmarshal_ends_example :
    ((m : Params) → Params.unmarshal m torn ≢ fail stuck)
    × ((m : MsgMint) → Mint.unmarshal m torn ≢ fail stuck)
    × ((m : MsgBurn) → Burn.unmarshal m torn ≢ fail stuck)
    × ((m : MsgUpdateParams) → Update.unmarshal m torn ≢ fail stuck)
    × ((m : GenesisState) → Genesis.unmarshal m torn ≢ fail stuck)
    × ((m : Response.QueryParamsResponse) → Response.unmarshal m torn ≢ fail stuck)
    × ((m : Config.ModuleConfig) → Config.unmarshal m torn ≢ fail stuck)
unmarshal_ends_example = unmarshal_ends torn
