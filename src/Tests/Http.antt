-- ===== src/Tests/Http.antt =====
-- A small gRPC server and a small mux, with the messages and states of the scenario.
use stable_coin.Prelude.{
  ◌≡◌, refl, sym, ap, arith, List, [], ◌∷◌, Option, none, some, Bytes, Bool, true, false, bytes_eq,
  bytes_eq_refl, if◌then◌else◌,
}
use stable_coin.Go.Outcome.{Done, Action, Error, ok, err, external}
use stable_coin.Go.Strings.{lit}
use stable_coin.Types.Params.{Params}
use stable_coin.Keeper.State.{World, get_params}
use stable_coin.Keeper.Server.{mint, burn}
use stable_coin.Keeper.Update.{update_params}
use stable_coin.Keeper.Query.{query_params}
use stable_coin.Wire.Params.Store.{params_codec, params_codec-CodecLaws}
use stable_coin.Wire.MsgMint as Mint
use stable_coin.Wire.MsgBurn as Burn
use stable_coin.Wire.MsgUpdateParams as Update
use stable_coin.Example.Chain.{chain, chain-MathLaws, chain-StoreLaws}
use stable_coin.Service.{
  ServiceDesc, MethodDesc, Registrar, RegistrarLaws, Answer, empty_answer, params_answer, as_answer,
  answering, find_method, register_services, msg_service_desc, query_service_desc,
}
use stable_coin.Service.Delivery.{IsDelivered, delivered, serve-query}
use stable_coin.Gateway.{
  Web, Runtime, Mux, no_metadata, client_handler, new_query_client, register_query_handler_client,
}
use stable_coin.Wire.Varint.{read_varint, sov}
use stable_coin.Wire.Buffer.{string_size, message_size, bool_size}
use stable_coin.Wire.Varint.Size.{groups}
use stable_coin.Wire.Buffer.Fields.{string_field, bool_field}
use stable_coin.Wire.Decode.{read_string, read_bool, or_skip, unmarshal_loop, unmarshal_with}
use stable_coin.Wire.Params.{fields, unmarshal}
use stable_coin.Wire.Params.RoundTrip.{encoding}
use stable_coin.Module.Http.{RouteLaws, http_params}
use stable_coin.Module.ReadBack.{update_shown}
use stable_coin.Tests.Trace.{updated_world, update_runs}
use stable_coin.Module.Wiring.{register_grpc_gateway_routes}
use stable_coin.Tests.Scenario.{gov_keeper, terms, fresh_world, mint_250, burn_150, new_terms}

-- A context is a list of texts.
abbrev Call : Type 0
Call = Bytes → List Bytes → Action (World chain) Answer

abbrev unknown : Call
unknown bz ctx w = (err (external 12), w)

abbrev or_unknown : Option Call → Call
or_unknown none = unknown
or_unknown (some h) = h

abbrev serve_listed : List (ServiceDesc chain (List Bytes)) → Bytes → Bytes → Call
serve_listed [] service name = unknown
serve_listed (d ∷ services) service name =
    if bytes_eq d.service_name service
    then or_unknown (find_method d.methods name)
    else serve_listed services service name

abbrev listed : Registrar chain (List Bytes)
listed = record {
  Services = List (ServiceDesc chain (List Bytes));
  register_service = λ d services. d ∷ services;
  serve = serve_listed;
}

listed-RegistrarLaws : RegistrarLaws listed
listed-RegistrarLaws = record {
  serve-register = λ d s name bz h found. rw (bytes_eq_refl d.service_name, found) refl;
  serve-others = λ d s service name differs. rw differs refl;
}

abbrev services : List (ServiceDesc chain (List Bytes))
services =
    query_service_desc chain params_codec (List Bytes)
    ∷ msg_service_desc chain params_codec (List Bytes) gov_keeper
    ∷ []

services_run : register_services chain params_codec listed gov_keeper [] ≡ (ok tt, services)
unfolding register_services stable_coin.Service.register_msg_server
    stable_coin.Service.register_query_server
services_run = refl

delivered_example :
    IsDelivered Update.marshal
      (λ bz.
        serve_listed services
          (lit "stbchain.stablecoin.v1.Msg")
          (lit "UpdateParams")
          bz
          []
          fresh_world)
      new_terms
      (answering
        (λ _. empty_answer)
        (update_params chain gov_keeper params_codec new_terms fresh_world))
    × IsDelivered Mint.marshal
        (λ bz.
          serve_listed services (lit "stbchain.stablecoin.v1.Msg") (lit "Mint") bz [] fresh_world)
        mint_250
        (answering (λ _. empty_answer) (mint chain params_codec mint_250 fresh_world))
    × IsDelivered Burn.marshal
        (λ bz.
          serve_listed services (lit "stbchain.stablecoin.v1.Msg") (lit "Burn") bz [] fresh_world)
        burn_150
        (answering (λ _. empty_answer) (burn chain params_codec burn_150 fresh_world))
unfolding Update.size string_size sov message_size stable_coin.Wire.Params.size bool_size Mint.size
    Burn.size
delivered_example =
    delivered chain params_codec gov_keeper listed listed-RegistrarLaws [] services services_run
      new_terms mint_250 burn_150 [] fresh_world (omega arith) (omega arith) (omega arith)

-- A response is the list of the pages that were written.
data Page : Type 0 where
  params_page : Params → Page
  error_page : Error → Page

abbrev Get : Type 0
Get = List Bytes → Action (List Page) Done

abbrev small_web : Web
small_web = record {
  Context = List Bytes;
  Request = List Bytes;
  Response = List Page;
  Options = Done;
  Marshaler = Done;
  Pattern = List Bytes;
  Routes = List (List Bytes × Get);
  Connection = World chain;
}

abbrev same_path : List Bytes → List Bytes → Bool
same_path [] [] = true
same_path [] (y ∷ ys) = false
same_path (x ∷ xs) [] = false
same_path (x ∷ xs) (y ∷ ys) = if bytes_eq x y then same_path xs ys else false

abbrev serve_path : List (List Bytes × Get) → Get
serve_path [] req page = (ok tt, error_page (external 404) ∷ page)
serve_path (route ∷ routes) req page =
    if same_path req route.0 then route.1 req page else serve_path routes req page

abbrev small_runtime : Runtime small_web
small_runtime = record {
  context_of = λ req. req;
  with_cancel = λ ctx. ctx;
  with_stream = λ ctx. ctx;
  with_metadata = λ ctx md. ctx;
  marshaler_for = λ options req. (tt, tt);
  annotate_context = λ ctx options req. ok ctx;
  annotate_incoming = λ ctx options req. ok ctx;
  http_error = λ ctx options m req e page. error_page e ∷ page;
  forward = λ ctx options m req p page. params_page p ∷ page;
  must_pattern = λ version ops pool verb colon. pool;
  handle = λ method pattern h routes. (pattern, h) ∷ routes;
  serve = serve_path;
  dial = λ endpoint. err (external 14);
  invoke = λ w ctx method req. (query_params chain params_codec req w, no_metadata);
}

abbrev IsForPath : List (List Bytes × Get) → List Bytes → Bytes → List Bytes → Type 0
IsForPath routes req method pattern = same_path req pattern ≡ true

small-RouteLaws : RouteLaws small_web small_runtime IsForPath
small-RouteLaws = record {
  serve-handle = λ method pattern h routes req same.
      ap (λ b page. if b then h req page else serve_path routes req page) same;
}

abbrev route : List Bytes
route = lit "stbchain" ∷ lit "stablecoin" ∷ lit "v1" ∷ lit "params" ∷ []

abbrev small_mux : Mux small_web
small_mux = record { options = tt; routes = [] }

-- A connection to the state `w`.
abbrev routed_mux : World chain → Mux small_web
routed_mux w = record {
  options = tt;
  routes =
      (
        route,
        client_handler small_web small_runtime (new_query_client small_web small_runtime w) tt,
      )
      ∷ [];
}

mux_runs :
    (w : World chain)
    → register_grpc_gateway_routes small_web small_runtime w small_mux ≡ (ok tt, routed_mux w)
unfolding register_grpc_gateway_routes register_query_handler_client
mux_runs w = refl

small_delivers :
    (w : World chain) (x : List Bytes)
    → as_answer params_answer (query_params chain params_codec (some tt) w)
      ≡ (serve_listed services (lit "stbchain.stablecoin.v1.Query") (lit "Params") [] x w).0
unfolding unmarshal_with unmarshal_loop
small_delivers w x = sym (
    ap (λ r. r.0)
      (serve-query chain params_codec gov_keeper listed listed-RegistrarLaws [] services
        services_run [] x w refl))

http_params_example :
    serve_path (routed_mux fresh_world).routes route [] ≡ (ok tt, params_page terms ∷ [])
unfolding get_params params_codec unmarshal unmarshal_with unmarshal_loop read_varint read_string
    read_bool fields or_skip encoding string_field bool_field groups
http_params_example =
    http_params chain params_codec gov_keeper small_web small_runtime listed listed-RegistrarLaws
      fresh_world IsForPath small-RouteLaws [] services small_mux (routed_mux fresh_world)
      fresh_world route [] route services_run (mux_runs fresh_world) (small_delivers fresh_world)
      refl refl

update_shown_example :
    serve_path (routed_mux updated_world).routes route []
    ≡ (ok tt, params_page new_terms.params ∷ [])
update_shown_example =
    update_shown chain params_codec gov_keeper chain-MathLaws chain-StoreLaws params_codec-CodecLaws
      small_web small_runtime listed listed-RegistrarLaws updated_world IsForPath small-RouteLaws
      new_terms fresh_world updated_world [] services small_mux (routed_mux updated_world) route []
      route update_runs services_run (mux_runs updated_world) (small_delivers updated_world) refl
      refl
