-- ===== src/App/Startup.antt =====
-- stbchain/app/config.go, the init function and RegisterAPIRoutes of stbchain/app/app.go, and
-- stbchain/docs/docs.go: what the program sets before it runs, and the routes of its API server.
use stable_coin.Prelude.{ℕ, ◌++◌, Bytes}
use stable_coin.Go.Outcome.{Outcome, ok, Done, Action, after, ◌>>=◌}
use stable_coin.Go.Action.{fatal, or_die}
use stable_coin.Go.Strings.{lit}
use stable_coin.Cmd.Root.{app_name}

-- AccountAddressPrefix and ChainCoinType
abbrev pub account_address_prefix : Bytes
account_address_prefix = lit "cosmos"

abbrev pub chain_coin_type : ℕ
chain_coin_type = 118

-- The settings of sdk.Config that are made before it is sealed.
pub record ChainConfig : Type 0 where
  pub coin_type : ℕ
  pub account : Bytes
  pub account_pub : Bytes
  pub validator : Bytes
  pub validator_pub : Bytes
  pub cons_node : Bytes
  pub cons_node_pub : Bytes

-- init of config.go
unfoldable pub init_config : ChainConfig
init_config =
    let account_pub_key_prefix = account_address_prefix ++ lit "pub" in
    let validator_address_prefix = account_address_prefix ++ lit "valoper" in
    let validator_pub_key_prefix = account_address_prefix ++ lit "valoperpub" in
    let cons_node_address_prefix = account_address_prefix ++ lit "valcons" in
    let cons_node_pub_key_prefix = account_address_prefix ++ lit "valconspub" in
    record {
      coin_type = chain_coin_type;
      account = account_address_prefix;
      account_pub = account_pub_key_prefix;
      validator = validator_address_prefix;
      validator_pub = validator_pub_key_prefix;
      cons_node = cons_node_address_prefix;
      cons_node_pub = cons_node_pub_key_prefix;
    }

-- init of app.go: the prefix of the environment, which is set first and which the library reads
-- for the directory, and the home directory of the node.
pub record Home : Type 0 where
  pub env_prefix : Bytes
  pub default_node_home : Bytes

unfoldable pub init_home : (Bytes → Bytes → Outcome Bytes) → Outcome Home
init_home get_node_home_directory = do
  home ← fatal (get_node_home_directory app_name (lit "." ++ app_name))
  ok (record { env_prefix = app_name; default_node_home = home })

-- The router of the API server, with the files and the page of the docs package.
pub record Api : Type 1 where
  pub Router : Type 0
  pub Files : Type 0
  pub Page : Type 0
  pub static : Files
  pub index_page : Bytes → Bytes → Page
  pub register_modules : Action Router Done
  pub register_swagger : Action Router Done
  pub handle_files : Bytes → Files → Router → Router
  pub handle_page : Bytes → Page → Router → Router

module _ (a : Api) where
  abbrev api_file : Bytes
  api_file = lit "/static/openapi.json"

  -- handler
  unfoldable pub handler : Bytes → a.Page
  handler title = a.index_page title api_file

  -- RegisterOpenAPIService
  unfoldable pub register_open_api_service : Bytes → a.Router → a.Router
  register_open_api_service name r =
      a.handle_page (lit "/") (handler name) (a.handle_files api_file a.static r)

  -- App.RegisterAPIRoutes
  unfoldable pub register_api_routes : Action a.Router Done
  register_api_routes r = after (a.register_modules r) λ _ r.
      after (or_die a.register_swagger r) λ _ r. (ok tt, register_open_api_service app_name r)
