-- ===== src/Module/Http.antt =====
-- The Params query over HTTP: the route, the gateway, the client, the service and the store.
use stable_coin.Prelude.{◌≡◌, refl, sym, ap, ◌∙◌, [], some, Bytes}
use stable_coin.Go.Outcome.{Outcome, ok, err, panic, Done, Error, not_found, status_internal}
use stable_coin.Go.Strings.{lit}
use stable_coin.Sdk.{Sdk}
use stable_coin.Types.Params.{Params, ParamsCodec, params_key, zero_params}
use stable_coin.Keeper.State.{World, Keeper}
use stable_coin.Keeper.Query.{query_params}
use stable_coin.Wire.Decode.{unmarshal_with, unmarshal_loop}
use stable_coin.Service.{Registrar, RegistrarLaws, params_answer, as_answer, register_services}
use stable_coin.Service.Delivery.{serve-query}
use stable_coin.Gateway.{
  Web, Runtime, Mux, Handler, pattern_query_params, request_query_params, respond, client_handler,
  register_query_handler_client, new_query_client,
}
use stable_coin.Module.Wiring.{register_grpc_gateway_routes}

-- `IsFor routes req method pattern`: the request has the method and the path of a new route, and
-- none of the routes before takes it. It is served by the handler of the new one. Of other
-- requests nothing is said.
pub record RouteLaws (t : Web) (rt : Runtime t)
    (IsFor : t.Routes → t.Request → Bytes → t.Pattern → Type 0) : Type 0 where
  pub serve-handle :
      (method : Bytes) (pattern : t.Pattern) (h : Handler t) (routes : t.Routes) (req : t.Request)
      → IsFor routes req method pattern
      → rt.serve (rt.handle method pattern h routes) req ≡ h req

as_answer_inj :
    (a b : Outcome Params) → as_answer params_answer a ≡ as_answer params_answer b → a ≡ b
as_answer_inj (ok p) (ok q) h = cc
as_answer_inj (ok p) (err e) h = cc
as_answer_inj (ok p) panic h = cc
as_answer_inj (err d) (ok q) h = cc
as_answer_inj (err d) (err e) h = cc
as_answer_inj (err d) panic h = cc
as_answer_inj panic (ok q) h = cc
as_answer_inj panic (err e) h = cc
as_answer_inj panic panic h = cc

-- What the module has to say about its parameters, given how the store was read.
abbrev pub report : Outcome Params → Outcome Params
report (ok p) = ok p
report (err not_found) = ok zero_params
report (err _) = err status_internal
report panic = panic

-- The page for it: the parameters, or an error page.
abbrev pub page :
    {Page : Type 0}
    → (Params → Page → Page)
    → (Error → Page → Page)
    → Outcome Params
    → Page
    → Outcome Done × Page
page shown failed (ok p) w = (ok tt, shown p w)
page shown failed (err e) w = (ok tt, failed e w)
page shown failed panic w = (panic, w)

module _ (k : Sdk) (c : ParamsCodec) (w : World k) where
  query_params-report :
      (r : Outcome Params)
      → k.item_get Params c.decode params_key w.store ≡ r
      → query_params k c (some tt) w ≡ report r
  unfolding query_params
  query_params-report (ok p) h = rw (h, query_params)
  query_params-report (err not_found) h = rw (h, query_params)
  query_params-report (err _) h = rw (h, query_params)
  query_params-report panic h = rw (h, query_params)

module _ (t : Web) (rt : Runtime t) (req : t.Request) where
  -- The context of an answer carries the metadata that came with it.
  abbrev pub answer_context : t.Connection → t.Context → t.Context
  answer_context conn ctx =
      rt.with_metadata (rt.with_cancel (rt.context_of req))
        (rt.invoke conn ctx (lit "/stbchain.stablecoin.v1.Query/Params") (some tt)).1

  respond-page :
      (options : t.Options) (resp : t.Response) (ctx : t.Context) (outbound : t.Marshaler)
      → (o : Outcome Params)
      → respond t rt ctx options outbound req o resp
        ≡ page (rt.forward ctx options outbound req) (rt.http_error ctx options outbound req) o resp
  unfolding respond
  respond-page options resp ctx outbound (ok p) = refl
  respond-page options resp ctx outbound (err e) = refl
  respond-page options resp ctx outbound panic = refl

  client_handler-page :
      (options : t.Options) (resp : t.Response) (conn : t.Connection) (ctx : t.Context)
      → (r : Outcome Params)
      → rt.annotate_context (rt.with_cancel (rt.context_of req)) options req ≡ ok ctx
      → (rt.invoke conn ctx (lit "/stbchain.stablecoin.v1.Query/Params") (some tt)).0 ≡ r
      → client_handler t rt (new_query_client t rt conn) options req resp
        ≡ page
            (rt.forward (answer_context conn ctx) options (rt.marshaler_for options req).1 req)
            (rt.http_error (answer_context conn ctx) options (rt.marshaler_for options req).1 req)
            r
            resp
  unfolding client_handler request_query_params new_query_client
  client_handler-page options resp conn ctx r annotated answered =
      rw (annotated, client_handler)
        (rw answered
          (respond-page options resp (answer_context conn ctx) (rt.marshaler_for options req).1 _))

module _ (k : Sdk) (c : ParamsCodec) (keeper : Keeper) (t : Web) (rt : Runtime t)
    (grpc : Registrar k t.Context) (served : RegistrarLaws grpc) (conn : t.Connection) where
  query_answered :
      (s s' : grpc.Services) (w : World k) (ctx : t.Context)
      → register_services k c grpc keeper s ≡ (ok tt, s')
      → ((x : t.Context)
          → as_answer params_answer
              (rt.invoke conn x (lit "/stbchain.stablecoin.v1.Query/Params") (some tt)).0
            ≡ (grpc.serve s' (lit "stbchain.stablecoin.v1.Query") (lit "Params") [] x w).0)
      → (rt.invoke conn ctx (lit "/stbchain.stablecoin.v1.Query/Params") (some tt)).0
        ≡ report (k.item_get Params c.decode params_key w.store)
  unfolding unmarshal_with unmarshal_loop
  query_answered s s' w ctx registered delivers =
      as_answer_inj _ _ (
        delivers ctx
        ∙ ap (λ x. x.0) (serve-query k c keeper grpc served s s' registered [] ctx w refl))
      ∙ query_params-report k c w _ refl

  -- A GET of the route of the Params query, which no route from before takes, once the module has
  -- registered its services and its gateway routes: the response is the stored parameters, the
  -- zero parameters where nothing is stored, and an error page with the internal status where the
  -- store fails otherwise; a panic of the store stays one. The context of the request can be
  -- annotated, the connection delivers its calls to the registered services on the state `w`, and
  -- the registrar and the routes keep their laws.
  pub http_params :
      (IsFor : t.Routes → t.Request → Bytes → t.Pattern → Type 0) (routes : RouteLaws t rt IsFor)
      → (s s' : grpc.Services) (mux mux' : Mux t) (w : World k) (req : t.Request)
      → (resp : t.Response) (ctx : t.Context) → register_services k c grpc keeper s ≡ (ok tt, s')
      → register_grpc_gateway_routes t rt conn mux ≡ (ok tt, mux')
      → ((x : t.Context)
          → as_answer params_answer
              (rt.invoke conn x (lit "/stbchain.stablecoin.v1.Query/Params") (some tt)).0
            ≡ (grpc.serve s' (lit "stbchain.stablecoin.v1.Query") (lit "Params") [] x w).0)
      → IsFor mux.routes req (lit "GET") (pattern_query_params t rt)
      → rt.annotate_context (rt.with_cancel (rt.context_of req)) mux.options req ≡ ok ctx
      → rt.serve mux'.routes req resp ≡ (
          let answer = answer_context t rt req conn ctx in
          let outbound = (rt.marshaler_for mux.options req).1 in
          page
            (rt.forward answer mux.options outbound req)
            (rt.http_error answer mux.options outbound req)
            (report (k.item_get Params c.decode params_key w.store))
            resp)
  unfolding register_grpc_gateway_routes register_query_handler_client
  http_params IsFor routes s s' mux mux' w req resp ctx registered routed delivers is_for
        annotated =
      ap (λ x. rt.serve x.1.routes req resp) (sym routed)
      ∙ ap (λ h. h resp)
          (routes.serve-handle (lit "GET") (pattern_query_params t rt)
            (client_handler t rt (new_query_client t rt conn) mux.options) mux.routes req is_for)
      ∙ client_handler-page t rt req mux.options resp conn ctx _ annotated
          (query_answered s s' w ctx registered delivers)
