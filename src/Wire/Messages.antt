-- ===== src/Wire/Messages.antt =====
-- The messages that hold no more than texts and Params, together.
use stable_coin.Prelude.{ℕ, ◌^◌, ◌<◌, ◌≡◌, Bytes, Option, some, length}
use stable_coin.Types.Messages.{MsgMint, MsgBurn, MsgUpdateParams}
use stable_coin.Types.Genesis.{GenesisState}
use stable_coin.Wire.Result.{Result, ok}
use stable_coin.Wire.MsgMint as Mint
use stable_coin.Wire.MsgMint.RoundTrip.{round_trip_mint}
use stable_coin.Wire.MsgBurn as Burn
use stable_coin.Wire.MsgBurn.RoundTrip.{round_trip_burn}
use stable_coin.Wire.MsgUpdateParams as Update
use stable_coin.Wire.MsgUpdateParams.RoundTrip.{round_trip_update}
use stable_coin.Wire.GenesisState as Genesis
use stable_coin.Wire.GenesisState.RoundTrip.{round_trip_genesis}
use stable_coin.Wire.QueryParamsResponse as Response
use stable_coin.Wire.QueryParamsResponse.RoundTrip.{round_trip_query}
use stable_coin.Wire.ModuleConfig as Config
use stable_coin.Wire.ModuleConfig.RoundTrip.{round_trip_module}

-- The bytes of a message are as many as Size says, and are read back into a fresh value.
abbrev pub IsReadBack :
    {M : Type 0} → (M → Option Bytes) → (M → ℕ) → (M → Bytes → Result M) → M → M → Type 0
IsReadBack marshal size unmarshal fresh m =
    (bz : Bytes) × (marshal m ≡ some bz) × (size m ≡ length bz) × (unmarshal fresh bz ≡ ok m)

-- A MsgMint, a MsgBurn, a MsgUpdateParams, a GenesisState, a QueryParamsResponse and a Module
-- whose sizes are ints are marshalled without a panic, each to as many bytes as its Size
-- announces, and Unmarshal reads it back from them into a fresh value.
pub messages_round_trip :
    (a : MsgMint) (b : MsgBurn) (c : MsgUpdateParams) (d : GenesisState)
    → (e : Response.QueryParamsResponse) (f : Config.ModuleConfig) → Mint.size a < 2 ^ 63
    → Burn.size b < 2 ^ 63
    → Update.size c < 2 ^ 63
    → Genesis.size d < 2 ^ 63
    → Response.size e < 2 ^ 63
    → Config.size f < 2 ^ 63
    → IsReadBack Mint.marshal Mint.size Mint.unmarshal Mint.zero_message a
      × IsReadBack Burn.marshal Burn.size Burn.unmarshal Burn.zero_message b
      × IsReadBack Update.marshal Update.size Update.unmarshal Update.zero_message c
      × IsReadBack Genesis.marshal Genesis.size Genesis.unmarshal Genesis.zero_message d
      × IsReadBack Response.marshal Response.size Response.unmarshal Response.zero_message e
      × IsReadBack Config.marshal Config.size Config.unmarshal Config.zero_message f
messages_round_trip a b c d e f ha hb hc hd he hf = (
  round_trip_mint a ha,
  round_trip_burn b hb,
  round_trip_update c hc,
  round_trip_genesis d hd,
  round_trip_query e he,
  round_trip_module f hf,
)
