-- ===== src/Wire/Total.antt =====
-- The fuel of every Unmarshal of the module.
use stable_coin.Prelude.{◌≢◌, Bytes, none, ◌==◌, length}
use stable_coin.Types.Params.{Params}
use stable_coin.Types.Messages.{MsgMint, MsgBurn, MsgUpdateParams}
use stable_coin.Types.Genesis.{GenesisState}
use stable_coin.Wire.Result.{fail, stuck}
use stable_coin.Wire.Settles.{ok-Settles, if-Settles}
use stable_coin.Wire.Decode.Skip.{read_string-Settles, read_bool-Settles}
use stable_coin.Wire.Decode.Total.{
  IsSettled, field-Settles, read_message-Settles, unmarshal_with-Settles,
}
use stable_coin.Wire.Params
use stable_coin.Wire.MsgMint
use stable_coin.Wire.MsgBurn
use stable_coin.Wire.MsgUpdateParams
use stable_coin.Wire.GenesisState
use stable_coin.Wire.QueryParamsResponse
use stable_coin.Wire.ModuleConfig

params_fields-IsSettled : IsSettled Params.fields
unfolding Params.fields
params_fields-IsSettled = record {
  settles = λ l field_num wire_type m index rest.
      let text = read_string-Settles l wire_type index rest in
      if-Settles (field_num == 1) _ _ (field-Settles (length rest) _ _ text) (
        if-Settles (field_num == 2) _ _ (field-Settles (length rest) _ _ text) (
          if-Settles (field_num == 3) _ _
            (field-Settles (length rest) _ _ (read_bool-Settles wire_type index rest))
            (if-Settles (field_num == 4) _ _ (field-Settles (length rest) _ _ text)
              (ok-Settles none tt))));
}

mint_fields-IsSettled : IsSettled MsgMint.fields
unfolding MsgMint.fields
mint_fields-IsSettled = record {
  settles = λ l field_num wire_type m index rest.
      let text = read_string-Settles l wire_type index rest in
      if-Settles (field_num == 1) _ _ (field-Settles (length rest) _ _ text) (
        if-Settles (field_num == 2) _ _ (field-Settles (length rest) _ _ text) (
          if-Settles (field_num == 3) _ _ (field-Settles (length rest) _ _ text)
            (ok-Settles none tt)));
}

burn_fields-IsSettled : IsSettled MsgBurn.fields
unfolding MsgBurn.fields
burn_fields-IsSettled = record {
  settles = λ l field_num wire_type m index rest.
      let text = read_string-Settles l wire_type index rest in
      if-Settles (field_num == 1) _ _ (field-Settles (length rest) _ _ text) (
        if-Settles (field_num == 2) _ _ (field-Settles (length rest) _ _ text) (
          if-Settles (field_num == 3) _ _ (field-Settles (length rest) _ _ text)
            (ok-Settles none tt)));
}

update_fields-IsSettled : IsSettled MsgUpdateParams.fields
unfolding MsgUpdateParams.fields
update_fields-IsSettled = record {
  settles = λ l field_num wire_type m index rest.
      let text = read_string-Settles l wire_type index rest in
      let inner =
        read_message-Settles Params.fields m.params l wire_type index rest
          params_fields-IsSettled in
      if-Settles (field_num == 1) _ _ (field-Settles (length rest) _ _ text) (
        if-Settles (field_num == 2) _ _ (field-Settles (length rest) _ _ inner)
          (ok-Settles none tt));
}

genesis_fields-IsSettled : IsSettled GenesisState.fields
unfolding GenesisState.fields
genesis_fields-IsSettled = record {
  settles = λ l field_num wire_type m index rest.
      let inner =
        read_message-Settles Params.fields m.params l wire_type index rest
          params_fields-IsSettled in
      if-Settles (field_num == 1) _ _ (field-Settles (length rest) _ _ inner) (ok-Settles none tt);
}

query_fields-IsSettled : IsSettled QueryParamsResponse.fields
unfolding QueryParamsResponse.fields
query_fields-IsSettled = record {
  settles = λ l field_num wire_type m index rest.
      let inner =
        read_message-Settles Params.fields m.params l wire_type index rest
          params_fields-IsSettled in
      if-Settles (field_num == 1) _ _ (field-Settles (length rest) _ _ inner) (ok-Settles none tt);
}

module_fields-IsSettled : IsSettled ModuleConfig.fields
unfolding ModuleConfig.fields
module_fields-IsSettled = record {
  settles = λ l field_num wire_type m index rest.
      let text = read_string-Settles l wire_type index rest in
      if-Settles (field_num == 1) _ _ (field-Settles (length rest) _ _ text) (ok-Settles none tt);
}

-- On any bytes, the Unmarshal of the parameters, of the three requests, of the genesis state, of
-- the query's response and of the module's configuration ends with a value or with an error of
-- the source: the fuel never runs out.
pub unmarshal_ends :
    (d : Bytes)
    → ((m : Params) → Params.unmarshal m d ≢ fail stuck)
      × ((m : MsgMint) → MsgMint.unmarshal m d ≢ fail stuck)
      × ((m : MsgBurn) → MsgBurn.unmarshal m d ≢ fail stuck)
      × ((m : MsgUpdateParams) → MsgUpdateParams.unmarshal m d ≢ fail stuck)
      × ((m : GenesisState) → GenesisState.unmarshal m d ≢ fail stuck)
      × ((m : QueryParamsResponse.QueryParamsResponse)
          → QueryParamsResponse.unmarshal m d ≢ fail stuck)
      × ((m : ModuleConfig.ModuleConfig) → ModuleConfig.unmarshal m d ≢ fail stuck)
unfolding Params.unmarshal MsgMint.unmarshal MsgBurn.unmarshal MsgUpdateParams.unmarshal
    GenesisState.unmarshal QueryParamsResponse.unmarshal ModuleConfig.unmarshal
unmarshal_ends d = (
  λ m. (unmarshal_with-Settles _ params_fields-IsSettled m d).unstuck,
  λ m. (unmarshal_with-Settles _ mint_fields-IsSettled m d).unstuck,
  λ m. (unmarshal_with-Settles _ burn_fields-IsSettled m d).unstuck,
  λ m. (unmarshal_with-Settles _ update_fields-IsSettled m d).unstuck,
  λ m. (unmarshal_with-Settles _ genesis_fields-IsSettled m d).unstuck,
  λ m. (unmarshal_with-Settles _ query_fields-IsSettled m d).unstuck,
  λ m. (unmarshal_with-Settles _ module_fields-IsSettled m d).unstuck,
)
