-- ===== src/Service.antt =====
-- The gRPC services of x/stablecoin/types/tx.pb.go and query.pb.go: the generated handlers, the
-- descriptions of the services, and the client of the Params query. gRPC itself is a parameter.
pub mod Delivery
use stable_coin.Prelude.{
  ◌≡◌, List, [], ◌∷◌, Option, none, some, Bytes, bytes_eq, false, if◌then◌else◌,
}
use stable_coin.Go.Outcome.{Outcome, ok, err, panic, Done, Action, after, external}
use stable_coin.Go.Strings.{lit}
use stable_coin.Sdk.{Sdk}
use stable_coin.Types.Params.{Params, ParamsCodec, zero_params}
use stable_coin.Types.Messages.{MsgMint, MsgBurn, MsgUpdateParams}
use stable_coin.Keeper.State.{World, Keeper}
use stable_coin.Keeper.Server.{mint, burn}
use stable_coin.Keeper.Update.{update_params}
use stable_coin.Keeper.Query.{query_params}
use stable_coin.Wire.Result.{Result}
use stable_coin.Wire.Result
use stable_coin.Wire.Decode.{Fields, unmarshal_with}
use stable_coin.Wire.MsgMint as Mint
use stable_coin.Wire.MsgBurn as Burn
use stable_coin.Wire.MsgUpdateParams as Update

-- `dec`, which fills a fresh message, and grpc.UnaryServerInterceptor, which is handed the message
-- and the method and decides what to call.
abbrev pub Decoder : Type 0 → Type 0
Decoder M = M → Outcome M

abbrev pub Interceptor : Type 0 → Type 0 → Type 0 → Type 0 → Type 0
Interceptor Context M S A = Context → M → (Context → M → Action S A) → Action S A

-- The body that the generated handlers share.
unfoldable pub unary :
    {Context M S A : Type 0}
    → M
    → (Context → M → Action S A)
    → Decoder M
    → Option (Interceptor Context M S A)
    → Context
    → Action S A
unary fresh method dec none ctx s = after (dec fresh, s) λ m. method ctx m
unary fresh method dec (some interceptor) ctx s = after (dec fresh, s) λ m. interceptor ctx m method

-- The decoding of a request by the generated Unmarshal.
abbrev pub unmarshalled : {M : Type 0} → Result M → Outcome M
unmarshalled (Result.ok m) = ok m
unmarshalled (Result.fail e) = err (external 6)

-- QueryParamsRequest.Unmarshal: a message without fields, so that every field is skipped.
abbrev no_fields : Fields Done
no_fields l field_num wire_type m index rest = Result.ok none

abbrev pub unmarshal_query_request : Done → Bytes → Result Done
unmarshal_query_request = unmarshal_with no_fields

-- The two kinds of answers: the responses of the messages are empty.
pub data Answer : Type 0 where
  empty_answer : Answer
  params_answer : Params → Answer

abbrev pub as_answer : {A : Type 0} → (A → Answer) → Outcome A → Outcome Answer
as_answer f (ok a) = ok (f a)
as_answer f (err e) = err e
as_answer f panic = panic

abbrev pub answering : {S A : Type 0} → (A → Answer) → Outcome A × S → Outcome Answer × S
answering f (r, s) = (as_answer f r, s)

module _ (k : Sdk) (c : ParamsCodec) {Context : Type 0} where
  -- _Msg_Mint_Handler
  unfoldable pub mint_handler :
      Decoder MsgMint
      → Option (Interceptor Context MsgMint (World k) Done)
      → Context
      → Action (World k) Done
  mint_handler = unary Mint.zero_message λ ctx m. mint k c m

  -- _Msg_Burn_Handler
  unfoldable pub burn_handler :
      Decoder MsgBurn
      → Option (Interceptor Context MsgBurn (World k) Done)
      → Context
      → Action (World k) Done
  burn_handler = unary Burn.zero_message λ ctx m. burn k c m

  -- _Msg_UpdateParams_Handler
  unfoldable pub update_params_handler :
      Keeper
      → Decoder MsgUpdateParams
      → Option (Interceptor Context MsgUpdateParams (World k) Done)
      → Context
      → Action (World k) Done
  update_params_handler keeper = unary Update.zero_message λ ctx m. update_params k keeper c m

  -- _Query_Params_Handler
  unfoldable pub query_params_handler :
      Decoder Done
      → Option (Interceptor Context Done (World k) Params)
      → Context
      → Action (World k) Params
  query_params_handler = unary tt λ ctx m w. (query_params k c (some m) w, w)

-- grpc.MethodDesc with the server bound, and grpc.ServiceDesc. A call hands over the encoded
-- request and no interceptor.
pub record MethodDesc (k : Sdk) (Context : Type 0) : Type 0 where
  pub method_name : Bytes
  pub handler : Bytes → Context → Action (World k) Answer

pub record ServiceDesc (k : Sdk) (Context : Type 0) : Type 0 where
  pub service_name : Bytes
  pub methods : List (MethodDesc k Context)

module _ (k : Sdk) (c : ParamsCodec) (Context : Type 0) where
  -- _Msg_serviceDesc
  unfoldable pub msg_service_desc : Keeper → ServiceDesc k Context
  msg_service_desc keeper = record {
    service_name = lit "stbchain.stablecoin.v1.Msg";
    methods =
        record {
          method_name = lit "UpdateParams";
          handler = λ bz ctx w.
              answering (λ _. empty_answer)
                (update_params_handler k c keeper (λ m. unmarshalled (Update.unmarshal m bz)) none
                  ctx w);
        }
        ∷ record {
          method_name = lit "Mint";
          handler = λ bz ctx w.
              answering (λ _. empty_answer)
                (mint_handler k c (λ m. unmarshalled (Mint.unmarshal m bz)) none ctx w);
        }
        ∷ record {
          method_name = lit "Burn";
          handler = λ bz ctx w.
              answering (λ _. empty_answer)
                (burn_handler k c (λ m. unmarshalled (Burn.unmarshal m bz)) none ctx w);
        }
        ∷ [];
  }

  -- _Query_serviceDesc
  unfoldable pub query_service_desc : ServiceDesc k Context
  query_service_desc = record {
    service_name = lit "stbchain.stablecoin.v1.Query";
    methods =
        record {
          method_name = lit "Params";
          handler = λ bz ctx w. answering params_answer (
              query_params_handler k c (λ m. unmarshalled (unmarshal_query_request m bz)) none ctx
                w);
        }
        ∷ [];
  }

-- grpc.ServiceRegistrar, as a server that serves what was registered with it.
pub record Registrar (k : Sdk) (Context : Type 0) : Type 1 where
  pub Services : Type 0
  pub register_service : ServiceDesc k Context → Services → Services
  pub serve : Services → Bytes → Bytes → Bytes → Context → Action (World k) Answer

-- The handler of the first method of that name.
abbrev pub find_method :
    {k : Sdk} {Context : Type 0}
    → List (MethodDesc k Context)
    → Bytes
    → Option (Bytes → Context → Action (World k) Answer)
find_method [] name = none
find_method (m ∷ methods) name =
    if bytes_eq m.method_name name then some m.handler else find_method methods name

-- A registered method is served by its handler, and registering a service leaves the others alone.
-- That gRPC ends the process when a service is registered twice is left out.
pub record RegistrarLaws {k : Sdk} {Context : Type 0} (r : Registrar k Context) : Type 0 where
  pub serve-register :
      (d : ServiceDesc k Context) (s : r.Services) (name bz : Bytes)
      → (h : Bytes → Context → Action (World k) Answer) → find_method d.methods name ≡ some h
      → r.serve (r.register_service d s) d.service_name name bz ≡ h bz
  pub serve-others :
      (d : ServiceDesc k Context) (s : r.Services) (service name : Bytes)
      → bytes_eq d.service_name service ≡ false
      → r.serve (r.register_service d s) service name ≡ r.serve s service name

-- RegisterMsgServer, RegisterQueryServer and AppModule.RegisterServices, which returns nil.
module _ (k : Sdk) (c : ParamsCodec) {Context : Type 0} (r : Registrar k Context) where
  unfoldable pub register_msg_server : Keeper → r.Services → r.Services
  register_msg_server keeper = r.register_service (msg_service_desc k c Context keeper)

  unfoldable pub register_query_server : r.Services → r.Services
  register_query_server = r.register_service (query_service_desc k c Context)

  unfoldable pub register_services : Keeper → Action r.Services Done
  register_services keeper s = (ok tt, register_query_server (register_msg_server keeper s))
