-- ===== src/Cmd/Network.antt =====
-- What testnet_multi_node.go takes from its libraries: the file system, the key ring, the
-- transactions, the genesis states and the configuration files, over a world that the calls
-- change.
use stable_coin.Prelude.{ℕ, Bytes, Bool, List, Option}
use stable_coin.Prelude.Int.{ℤ}
use stable_coin.Go.Outcome.{Outcome, Done, Action}
use stable_coin.Sdk.{Coin, Coins}

-- The fields of cometbft's Config that are set; the others are one field.
pub record NodeConfig : Type 0 where
  pub root_dir : Bytes
  pub moniker : Bytes
  pub rpc_listen_address : Bytes
  pub p2p_listen_address : Bytes
  pub persistent_peers : Bytes
  pub allow_duplicate_ip : Bool
  pub proxy_app : Bytes
  pub prometheus_listen_addr : Bytes
  pub prometheus : Bool
  pub other_fields : Bytes

-- The fields of the server's Config that are set. Its BaseConfig is embedded, so that both
-- `MinGasPrices` and `BaseConfig.MinGasPrices` are the field `min_gas_prices`.
pub record AppConfig : Type 0 where
  pub min_gas_prices : Bytes
  pub api_enable : Bool
  pub api_address : Bytes
  pub grpc_address : Bytes
  pub enable_hostname_label : Bool
  pub telemetry_enabled : Bool
  pub prometheus_retention_time : ℕ
  pub other_fields : Bytes

pub record Balance : Type 0 where
  pub address : Bytes
  pub coins : Coins

-- banktypes.GenesisState
pub record BankGenesis : Type 0 where
  pub balances : List Balance
  pub supply : Coins
  pub other_fields : Bytes

-- types.GenesisDoc, with no validators.
pub record GenesisDoc : Type 0 where
  pub chain_id : Bytes
  pub app_state : Bytes

pub record Network : Type 1 where
  pub World : Type 0
  -- path/filepath: Join, Base, Abs, Rel
  pub join : List Bytes → Bytes
  pub base : Bytes → Bytes
  pub abs : Bytes → World → Outcome Bytes
  pub rel : Bytes → Bytes → Outcome Bytes
  -- os and io
  pub File : Type 0
  pub mkdir_all : Bytes → ℕ → Action World Done
  pub remove_all : Bytes → Action World Done
  pub write_file : Bytes → Bytes → ℕ → Action World Done
  pub open_file : Bytes → Action World File
  pub create_file : Bytes → Action World File
  pub copy : File → File → Action World ℕ
  pub sync : File → Action World Done
  pub close : File → Action World Done
  -- rand.Intn of a source seeded by the clock
  pub random_below : ℕ → Action World ℕ
  -- the node's files, under its configuration: the id and the public key
  pub PubKey : Type 0
  pub genesis_file : NodeConfig → Bytes
  pub initialize_node_validator_files : NodeConfig → Action World (Bytes × PubKey)
  pub write_node_config : Bytes → NodeConfig → Action World Done
  pub default_app_config : AppConfig
  pub write_app_config : Bytes → AppConfig → Action World Done
  -- the key ring: New by backend and directory, NewSigningAlgoFromString among the supported ones,
  -- GenerateSaveCoinKey with the address and the secret words, json.Marshal of these
  pub Keyring : Type 0
  pub Algo : Type 0
  pub new_keyring : Bytes → Bytes → Action World Keyring
  pub signing_algo : Bytes → Keyring → Outcome Algo
  pub generate_save_coin_key : Keyring → Bytes → Algo → Action World (Bytes × Bytes)
  pub marshal_secret : Bytes → Outcome Bytes
  -- sdk.TokensFromConsensusPower at the default reduction, Coins.Sort, the texts of an address
  pub tokens_from_power : ℕ → ℤ
  pub sort_coins : Coins → Coins
  pub acc_text : Bytes → Bytes
  pub val_text : Bytes → Bytes
  pub Account : Type 0
  pub new_base_account : Bytes → Account
  -- NewMsgCreateValidator of the operator, the key, the stake and the moniker, with all commission
  -- rates 1 and a minimum self delegation of 1
  pub Msg : Type 0
  pub new_msg_create_validator : Bytes → PubKey → Coin → Bytes → Outcome Msg
  -- the transaction builder; Sign takes the chain id, the memo, the key ring and the key's name
  pub TxBuilder : Type 0
  pub new_tx_builder : TxBuilder
  pub set_msgs : Msg → TxBuilder → Outcome TxBuilder
  pub set_memo : Bytes → TxBuilder → TxBuilder
  pub sign : Bytes → Bytes → Keyring → Bytes → TxBuilder → Action World TxBuilder
  pub encode_tx : TxBuilder → Outcome Bytes
  -- the default genesis by module, and its JSON codec (`none` is a panic)
  pub AuthGenesis : Type 0
  pub Packed : Type 0
  pub default_genesis : Bytes → Bytes
  pub unmarshal_auth : Bytes → Option AuthGenesis
  pub marshal_auth : AuthGenesis → Option Bytes
  pub with_accounts : Packed → AuthGenesis → AuthGenesis
  pub pack_accounts : List Account → Outcome Packed
  pub unmarshal_bank : Bytes → Option BankGenesis
  pub marshal_bank : BankGenesis → Option Bytes
  pub sanitize_genesis_balances : List Balance → List Balance
  pub add_coins : Coins → Coins → Option Coins
  pub marshal_app_state : (Bytes → Bytes) → Outcome Bytes
  pub save_as : GenesisDoc → Bytes → Action World Done
  -- AppGenesisFromFile, GenAppStateFromConfig (by the chain id, the gentx directory, the node's id
  -- and key; `none` is a nil message), the clock, ExportGenesisFileWithTime
  pub AppGenesis : Type 0
  pub app_genesis_from_file : Bytes → Action World AppGenesis
  pub gen_app_state_from_config :
      NodeConfig → Bytes → Bytes → Bytes → PubKey → AppGenesis → Action World (Option Bytes)
  pub Time : Type 0
  pub now : Action World Time
  pub export_genesis_file_with_time : Bytes → Bytes → Option Bytes → Time → Action World Done
