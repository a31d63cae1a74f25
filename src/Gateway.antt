-- ===== src/Gateway.antt =====
-- stbchain/x/stablecoin/types/query.pb.gw.go and the client of query.pb.go: the Params query over
-- HTTP. The runtime of grpc-gateway and gRPC itself are parameters. Nothing is written to the
-- module's state here: a handler only writes the response. The deferred cancel of its context is
-- left out.
use stable_coin.Prelude.{ℕ, List, [], ◌∷◌, ◌++◌, Option, some, Bytes, Bool, false}
use stable_coin.Go.Outcome.{Outcome, ok, err, panic, Done, Error, Action, after}
use stable_coin.Go.Strings.{lit}
use stable_coin.Types.Params.{Params}

-- runtime.ServerMetadata: the headers and the trailers of an answer.
pub record Metadata : Type 0 where
  pub header : List Bytes
  pub trailer : List Bytes

abbrev pub no_metadata : Metadata
no_metadata = record { header = []; trailer = [] }

-- The types of the library: a context, a request, the response that is being written, the options
-- of a mux, a marshaler and the path of a route.
pub record Web : Type 1 where
  pub Context : Type 0
  pub Request : Type 0
  pub Response : Type 0
  pub Options : Type 0
  pub Marshaler : Type 0
  pub Pattern : Type 0
  pub Routes : Type 0
  pub Connection : Type 0

abbrev pub Handler : Web → Type 0
Handler t = t.Request → Action t.Response Done

-- The mux of the runtime: what it was made with, and its routes.
pub record Mux (t : Web) : Type 0 where
  pub options : t.Options
  pub routes : t.Routes

-- What the generated code calls. `with_stream` is grpc.NewContextWithServerTransportStream, and
-- `forward` runtime.ForwardResponseMessage with the options of the mux.
pub record Runtime (t : Web) : Type 0 where
  pub context_of : t.Request → t.Context
  pub with_cancel : t.Context → t.Context
  pub with_stream : t.Context → t.Context
  pub with_metadata : t.Context → Metadata → t.Context
  pub marshaler_for : t.Options → t.Request → t.Marshaler × t.Marshaler
  pub annotate_context : t.Context → t.Options → t.Request → Outcome t.Context
  pub annotate_incoming : t.Context → t.Options → t.Request → Outcome t.Context
  pub http_error : t.Context → t.Options → t.Marshaler → t.Request → Error → t.Response → t.Response
  pub forward : t.Context → t.Options → t.Marshaler → t.Request → Params → t.Response → t.Response
  pub must_pattern : ℕ → List ℕ → List Bytes → Bytes → Bool → t.Pattern
  pub handle : Bytes → t.Pattern → Handler t → t.Routes → t.Routes
  pub serve : t.Routes → Handler t
  pub dial : Bytes → Outcome t.Connection
  pub invoke : t.Connection → t.Context → Bytes → Option (Unit {0}) → Outcome Params × Metadata

-- QueryClient and QueryServer. The request of Params has no fields, and `none` would be a nil
-- pointer. A client fills the metadata whether or not it answers, and a server may set headers on
-- the stream of its context.
abbrev pub QueryClient : Web → Type 0
QueryClient t = t.Context → Option (Unit {0}) → Outcome Params × Metadata

abbrev pub QueryServer : Web → Type 0
QueryServer t = t.Context → Option (Unit {0}) → Outcome Params × Metadata

module _ (t : Web) where
  -- request_Query_Params_0
  unfoldable pub request_query_params : QueryClient t → t.Context → Outcome Params × Metadata
  request_query_params client ctx = client ctx (some tt)

  -- local_request_Query_Params_0: the metadata that comes back is empty, and the caller joins the
  -- stream's to it.
  unfoldable pub local_request_query_params :
      QueryServer t → t.Context → (Outcome Params × Metadata) × Metadata
  local_request_query_params server ctx =
      let (resp, stream) = server ctx (some tt) in ((resp, no_metadata), stream)

-- metadata.Join
abbrev pub join : Metadata → Metadata → Metadata
join a b = record { header = a.header ++ b.header; trailer = a.trailer ++ b.trailer }

module _ (t : Web) (rt : Runtime t) where
  -- pattern_Query_Params_0
  abbrev pub pattern_query_params : t.Pattern
  pattern_query_params =
      rt.must_pattern 1 (2 ∷ 0 ∷ 2 ∷ 1 ∷ 2 ∷ 2 ∷ 2 ∷ 3 ∷ [])
        (lit "stbchain" ∷ lit "stablecoin" ∷ lit "v1" ∷ lit "params" ∷ []) [] false

  -- The end of both handlers: an error is written as an HTTP error, an answer is forwarded.
  unfoldable pub respond :
      t.Context → t.Options → t.Marshaler → t.Request → Outcome Params → Action t.Response Done
  respond ctx options outbound req (ok resp) w = (ok tt, rt.forward ctx options outbound req resp w)
  respond ctx options outbound req (err e) w = (ok tt, rt.http_error ctx options outbound req e w)
  respond ctx options outbound req panic w = (panic, w)

  -- The function that RegisterQueryHandlerServer hands to the mux.
  unfoldable pub server_handler : QueryServer t → t.Options → Handler t
  server_handler server options req w =
      let ctx = rt.with_stream (rt.with_cancel (rt.context_of req)) in
      let outbound = (rt.marshaler_for options req).1 in
      elim (rt.annotate_incoming ctx options req) [
        | err e ↦ (ok tt, rt.http_error ctx options outbound req e w)
        | panic ↦ (panic, w)
        | ok rctx ↦
            let ((resp, md), stream) = local_request_query_params t server rctx in
            respond (rt.with_metadata ctx (join md stream)) options outbound req resp w
      ]

  -- RegisterQueryHandlerServer
  unfoldable pub register_query_handler_server : QueryServer t → Action (Mux t) Done
  register_query_handler_server server mux = (
    ok tt,
    record mux {
      routes =
          rt.handle (lit "GET") pattern_query_params (server_handler server mux.options) mux.routes;
    },
  )

  -- The function that RegisterQueryHandlerClient hands to the mux.
  unfoldable pub client_handler : QueryClient t → t.Options → Handler t
  client_handler client options req w =
      let ctx = rt.with_cancel (rt.context_of req) in
      let outbound = (rt.marshaler_for options req).1 in
      elim (rt.annotate_context ctx options req) [
        | err e ↦ (ok tt, rt.http_error ctx options outbound req e w)
        | panic ↦ (panic, w)
        | ok rctx ↦
            let (resp, md) = request_query_params t client rctx in
            respond (rt.with_metadata ctx md) options outbound req resp w
      ]

  -- RegisterQueryHandlerClient
  unfoldable pub register_query_handler_client : QueryClient t → Action (Mux t) Done
  register_query_handler_client client mux = (
    ok tt,
    record mux {
      routes =
          rt.handle (lit "GET") pattern_query_params (client_handler client mux.options) mux.routes;
    },
  )

  -- NewQueryClient and queryClient.Params of query.pb.go
  unfoldable pub new_query_client : t.Connection → QueryClient t
  new_query_client conn ctx req =
      rt.invoke conn ctx (lit "/stbchain.stablecoin.v1.Query/Params") req

  -- RegisterQueryHandler
  unfoldable pub register_query_handler : t.Connection → Action (Mux t) Done
  register_query_handler conn = register_query_handler_client (new_query_client conn)

  -- What RegisterQueryHandlerFromEndpoint leaves: the mux, and the connections it has closed at
  -- once and those that are closed when the context is done. A failing Close is only logged.
  pub record Endpoint : Type 0 where
    pub mux : Mux t
    pub closed : List t.Connection
    pub closed_when_done : List t.Connection

  -- The deferred function: it runs however the registration ends. With a panic the result has
  -- its zero value, no error, on the way out.
  abbrev pub deferred_close :
      t.Connection → Outcome Done × Mux t → Endpoint → Outcome Done × Endpoint
  deferred_close conn (err e, mux) s = (err e, record s { mux = mux; closed = conn ∷ s.closed })
  deferred_close conn (ok u, mux) s =
      (ok u, record s { mux = mux; closed_when_done = conn ∷ s.closed_when_done })
  deferred_close conn (panic, mux) s =
      (panic, record s { mux = mux; closed_when_done = conn ∷ s.closed_when_done })

  -- RegisterQueryHandlerFromEndpoint
  unfoldable pub register_from_endpoint : Bytes → Action Endpoint Done
  register_from_endpoint endpoint s =
      after (rt.dial endpoint, s)
        λ conn s. deferred_close conn (register_query_handler conn s.mux) s
