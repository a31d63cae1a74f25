-- ===== src/Module/ReadBack.antt =====
-- An update of the parameters, read back over HTTP.
use stable_coin.Prelude.{◌≡◌, ap, ◌∙◌, [], none, some, Bytes, arith}
use stable_coin.Go.Outcome.{ok}
use stable_coin.Go.Strings.{lit}
use stable_coin.Sdk.{Sdk, MathLaws, StoreLaws}
use stable_coin.Types.Params.{Params, ParamsCodec, CodecLaws, params_key}
use stable_coin.Types.Messages.{MsgUpdateParams}
use stable_coin.Keeper.State.{World, Keeper, get_params}
use stable_coin.Keeper.Update.{update_params}
use stable_coin.Keeper.Update.Effect.{update_params-ok}
use stable_coin.Service.{Registrar, RegistrarLaws, params_answer, as_answer, register_services}
use stable_coin.Gateway.{Web, Runtime, Mux, pattern_query_params}
use stable_coin.Module.Wiring.{register_grpc_gateway_routes}
use stable_coin.Module.Http.{RouteLaws, answer_context, page, report, http_params}

get_params-item :
    (k : Sdk) (c : ParamsCodec) (w : World k) (p : Params)
    → get_params k c w ≡ ok (p, none)
    → k.item_get Params c.decode params_key w.store ≡ ok p
unfolding get_params
get_params-item k c w p h = ground arith

module _ (k : Sdk) (c : ParamsCodec) (keeper : Keeper) (math : MathLaws k) (stores : StoreLaws k)
    (codec : CodecLaws c) (t : Web) (rt : Runtime t) (grpc : Registrar k t.Context)
    (served : RegistrarLaws grpc) (conn : t.Connection) where
  -- After a successful UpdateParams a GET of the route of the Params query, which no route from
  -- before takes, shows the parameters of that message. The module has registered its services and
  -- its gateway routes, the context of the request can be annotated, the connection delivers its
  -- calls to the registered services on the state that the update left, and the libraries, the
  -- registrar and the routes keep their laws.
  pub update_shown :
      (IsFor : t.Routes → t.Request → Bytes → t.Pattern → Type 0) (routes : RouteLaws t rt IsFor)
      → (u : MsgUpdateParams) (w w' : World k) (s s' : grpc.Services) (mux mux' : Mux t)
      → (req : t.Request) (resp : t.Response) (ctx : t.Context)
      → update_params k keeper c u w ≡ (ok tt, w')
      → register_services k c grpc keeper s ≡ (ok tt, s')
      → register_grpc_gateway_routes t rt conn mux ≡ (ok tt, mux')
      → ((x : t.Context)
          → as_answer params_answer
              (rt.invoke conn x (lit "/stbchain.stablecoin.v1.Query/Params") (some tt)).0
            ≡ (grpc.serve s' (lit "stbchain.stablecoin.v1.Query") (lit "Params") [] x w').0)
      → IsFor mux.routes req (lit "GET") (pattern_query_params t rt)
      → rt.annotate_context (rt.with_cancel (rt.context_of req)) mux.options req ≡ ok ctx
      → rt.serve mux'.routes req resp ≡ (
        ok tt,
        rt.forward
            (answer_context t rt req conn ctx)
            mux.options
            (rt.marshaler_for mux.options req).1
            req
            u.params
            resp,
      )
  update_shown IsFor routes u w w' s s' mux mux' req resp ctx updated registered routed delivers
        is_for annotated =
      let (_, _, read, _, _) = update_params-ok k keeper math u c stores codec w w' updated in
      let outbound = (rt.marshaler_for mux.options req).1 in
      let answer = answer_context t rt req conn ctx in
      http_params k c keeper t rt grpc served conn IsFor routes s s' mux mux' w' req resp ctx
        registered routed delivers is_for annotated
      ∙ ap
          (λ r.
            page (rt.forward answer mux.options outbound req)
              (rt.http_error answer mux.options outbound req) (report r) resp)
          (get_params-item k c w' u.params read)
