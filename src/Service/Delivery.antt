-- ===== src/Service/Delivery.antt =====
-- Encoded requests against the methods that they are for.
use stable_coin.Prelude.{◌^◌, ◌<◌, ◌≡◌, refl, sym, ap, ◌∙◌, Option, some, Bytes}
use stable_coin.Go.Outcome.{Action, ok}
use stable_coin.Go.Strings.{lit}
use stable_coin.Sdk.{Sdk}
use stable_coin.Types.Params.{ParamsCodec}
use stable_coin.Types.Messages.{MsgMint, MsgBurn, MsgUpdateParams}
use stable_coin.Keeper.State.{World, Keeper}
use stable_coin.Keeper.Server.{mint, burn}
use stable_coin.Keeper.Update.{update_params}
use stable_coin.Keeper.Query.{query_params}
use stable_coin.Wire.MsgMint as Mint
use stable_coin.Wire.MsgMint.RoundTrip.{round_trip_mint}
use stable_coin.Wire.MsgBurn as Burn
use stable_coin.Wire.MsgBurn.RoundTrip.{round_trip_burn}
use stable_coin.Wire.MsgUpdateParams as Update
use stable_coin.Wire.MsgUpdateParams.RoundTrip.{round_trip_update}
use stable_coin.Service.{
  Answer, empty_answer, params_answer, answering, unmarshalled, unary, mint_handler, burn_handler,
  update_params_handler, query_params_handler, msg_service_desc, query_service_desc, Registrar,
  RegistrarLaws, register_services, register_msg_server, register_query_server,
  unmarshal_query_request, find_method,
}

-- The message has an encoding, and the call does with it what `result` says.
abbrev pub IsDelivered : {M R : Type 0} → (M → Option Bytes) → (Bytes → R) → M → R → Type 0
IsDelivered marshal call m result = (bz : Bytes) × (marshal m ≡ some bz) × (call bz ≡ result)

module _ (k : Sdk) (c : ParamsCodec) (keeper : Keeper) {Context : Type 0} (r : Registrar k Context)
    (laws : RegistrarLaws r) (s s' : r.Services)
    (registered : register_services k c r keeper s ≡ (ok tt, s')) where
  serve-msg :
      (name bz : Bytes) (h : Bytes → Context → Action (World k) Answer)
      → find_method (msg_service_desc k c Context keeper).methods name ≡ some h
      → r.serve s' (lit "stbchain.stablecoin.v1.Msg") name bz ≡ h bz
  unfolding register_services register_msg_server register_query_server msg_service_desc
      query_service_desc
  serve-msg name bz h found =
      ap (λ x. r.serve x (lit "stbchain.stablecoin.v1.Msg") name bz)
        (sym (ap (λ x. x.1) registered))
      ∙ ap (λ f. f bz)
          (laws.serve-others (query_service_desc k c Context) _ (lit "stbchain.stablecoin.v1.Msg")
            name refl)
      ∙ laws.serve-register (msg_service_desc k c Context keeper) s name bz h found

  pub serve-query :
      (bz : Bytes) (ctx : Context) (w : World k)
      → unmarshalled (unmarshal_query_request tt bz) ≡ ok tt
      → r.serve s' (lit "stbchain.stablecoin.v1.Query") (lit "Params") bz ctx w
        ≡ answering params_answer (query_params k c (some tt) w, w)
  unfolding register_services register_msg_server register_query_server msg_service_desc
      query_service_desc query_params_handler unary
  serve-query bz ctx w e =
      ap (λ x. r.serve x (lit "stbchain.stablecoin.v1.Query") (lit "Params") bz ctx w)
        (sym (ap (λ x. x.1) registered))
      ∙ ap (λ f. f ctx w)
          (laws.serve-register (query_service_desc k c Context) _ (lit "Params") bz _ refl)
      ∙ rw e refl

  -- Once RegisterServices has run, the service delivers every message: a MsgUpdateParams, a
  -- MsgMint and a MsgBurn whose sizes are an int can be marshalled, and a call of their method
  -- with these bytes does to the state what UpdateParams, Mint and Burn do with the message, and
  -- answers alike. The registrar keeps its laws.
  pub delivered :
      (u : MsgUpdateParams) (m : MsgMint) (b : MsgBurn) (ctx : Context) (w : World k)
      → Update.size u < 2 ^ 63
      → Mint.size m < 2 ^ 63
      → Burn.size b < 2 ^ 63
      → IsDelivered Update.marshal
          (λ bz. r.serve s' (lit "stbchain.stablecoin.v1.Msg") (lit "UpdateParams") bz ctx w)
          u
          (answering (λ _. empty_answer) (update_params k keeper c u w))
        × IsDelivered Mint.marshal
            (λ bz. r.serve s' (lit "stbchain.stablecoin.v1.Msg") (lit "Mint") bz ctx w)
            m
            (answering (λ _. empty_answer) (mint k c m w))
        × IsDelivered Burn.marshal
            (λ bz. r.serve s' (lit "stbchain.stablecoin.v1.Msg") (lit "Burn") bz ctx w)
            b
            (answering (λ _. empty_answer) (burn k c b w))
  unfolding msg_service_desc update_params_handler mint_handler burn_handler unary
  delivered u m b ctx w hu hm hb =
      let (bu, eu, _, ru) = round_trip_update u hu in
      let (bm, em, _, rm) = round_trip_mint m hm in
      let (bb, eb, _, rb) = round_trip_burn b hb in
      (
        (bu, eu, ap (λ f. f ctx w) (serve-msg (lit "UpdateParams") bu _ refl) ∙ rw ru refl),
        (bm, em, ap (λ f. f ctx w) (serve-msg (lit "Mint") bm _ refl) ∙ rw rm refl),
        (bb, eb, ap (λ f. f ctx w) (serve-msg (lit "Burn") bb _ refl) ∙ rw rb refl),
      )
