-- ===== src/Cmd/MultiNode/Node.antt =====
-- initTestnetFiles: the body of the loop over the nodes. The state has the variables of the
-- function and the two configurations, which the nodes share. Every return on an error leaves the
-- function, so that the slices that are filled by number are read only when they are full: they
-- are appended to.
use stable_coin.Prelude.{
  ◌*◌, ℕ, Bytes, List, [], ◌∷◌, ◌++◌, Option, none, some, bytes_eq, if◌then◌else◌,
}
use stable_coin.Prelude.Int.{pos, ◌-ℤ◌}
use stable_coin.Go.Outcome.{Outcome, ok, err, panic, Done, Action, or_panic}
use stable_coin.Go.Outcome
use stable_coin.Go.Action.{◌>>=◌, ◌>>◌, pure, calling}
use stable_coin.Go.IntMap.{find, find_text}
use stable_coin.Go.Strings.{lit}
use stable_coin.Go.Strings.Itoa.{itoa}
use stable_coin.Sdk.{Sdk, Coin, Coins}
use stable_coin.Cmd.Network.{Network, NodeConfig, AppConfig, Balance}
use stable_coin.Cmd.MultiNode.Flags.{InitArgs, default_bond_denom}
use stable_coin.Cmd.MultiNode.Files.{write_file}

pub record Progress (n : Network) : Type 0 where
  pub world : n.World
  pub node_config : NodeConfig
  pub app_config : AppConfig
  pub node_ids : List Bytes
  pub val_pub_keys : List n.PubKey
  pub gen_accounts : List n.Account
  pub gen_balances : List Balance
  pub gen_files : List Bytes
  pub persistent_peers : Bytes
  pub gentxs_files : List Bytes

-- The address and the key ring of a node.
pub record NodeKey (n : Network) : Type 0 where
  pub keyring : n.Keyring
  pub addr : Bytes

unfoldable pub node_dir_name : InitArgs → ℕ → Bytes
node_dir_name args i = args.node_dir_prefix ++ itoa (pos i)

abbrev pub config_name : Bytes
config_name = lit "config"

-- `id@ip:port`
unfoldable pub peer_address : InitArgs → ℕ → Bytes → Bytes
peer_address args i id =
    id ++ lit "@" ++ args.starting_ip_address ++ lit ":" ++ itoa (pos 26656 -ℤ pos (3 * i))

unfoldable pub add_peer : Bytes → Bytes → Bytes
add_peer memo peers = if bytes_eq peers [] then memo else peers ++ lit "," ++ memo

-- The configuration of the node's name and RPC port.
unfoldable pub configure_node : Bytes → Bytes → Bytes → NodeConfig → NodeConfig
configure_node dir name rpc_port config = record config {
  root_dir = dir;
  moniker = name;
  rpc_listen_address = lit "tcp://0.0.0.0:" ++ rpc_port;
}

module _ (n : Network) where
  abbrev pub on_world : {A : Type 0} → Action n.World A → Action (Progress n) A
  on_world f p = let (r, w) = f p.world in (r, record p { world = w })

  abbrev pub modify : (Progress n → Progress n) → Action (Progress n) Done
  modify f p = (ok tt, f p)

  -- `_ = os.RemoveAll(args.outputDir)` before an error is returned.
  abbrev clean_after : {A : Type 0} → Bytes → Outcome A × n.World → Outcome A × n.World
  clean_after dir (ok a, w) = (ok a, w)
  clean_after dir (err e, w) = (err e, (n.remove_all dir w).1)
  clean_after dir (panic, w) = (panic, w)

  unfoldable pub or_clean : {A : Type 0} → Bytes → Action n.World A → Action n.World A
  or_clean dir call w = clean_after dir (call w)

  unfoldable pub node_dir : InitArgs → ℕ → Bytes
  node_dir args i = n.join (args.output_dir ∷ node_dir_name args i ∷ [])

  abbrev gentxs_dir : InitArgs → ℕ → Bytes
  gentxs_dir args i =
      n.join (args.output_dir ∷ node_dir_name args i ∷ config_name ∷ lit "gentx" ∷ [])

  abbrev pub configured : InitArgs → ℕ → Progress n → Progress n
  configured args i p = record p {
    node_config =
        configure_node (node_dir args i) (node_dir_name args i) (find_text i args.ports)
          p.node_config;
  }

  abbrev pub with_node : InitArgs → ℕ → Bytes × n.PubKey → Progress n → Progress n
  with_node args i (id, key) p = record p {
    node_ids = p.node_ids ++ (id ∷ []);
    val_pub_keys = p.val_pub_keys ++ (key ∷ []);
    persistent_peers = add_peer (peer_address args i id) p.persistent_peers;
    gen_files = p.gen_files ++ (n.genesis_file p.node_config ∷ []);
  }

  abbrev pub with_account : Bytes → Coins → Progress n → Progress n
  with_account addr coins p = record p {
    gen_balances = p.gen_balances ++ (record { address = n.acc_text addr; coins = coins } ∷ []);
    gen_accounts = p.gen_accounts ++ (n.new_base_account addr ∷ []);
  }

  abbrev pub with_gentx : Bytes → Progress n → Progress n
  with_gentx file p = record p { gentxs_files = p.gentxs_files ++ (file ∷ []) }

  abbrev with_addresses : InitArgs → ℕ → Progress n → Progress n
  with_addresses args i p = record p {
    app_config = record (p.app_config) {
      grpc_address = args.starting_ip_address ++ lit ":" ++ itoa (pos 9090 -ℤ pos (2 * i));
      api_address = lit "tcp://localhost:" ++ itoa (pos 1317 -ℤ pos i);
    };
  }

  -- From the directories to the node's id, its key and its genesis file.
  unfoldable pub open_node : InitArgs → ℕ → Action (Progress n) (Bytes × n.PubKey)
  open_node args i = do
    modify (configured args i)
    on_world
        (or_clean args.output_dir (n.mkdir_all (n.join (node_dir args i ∷ config_name ∷ [])) 493))
    node ←
        λ p. on_world (or_clean args.output_dir (n.initialize_node_validator_files p.node_config)) p
    modify (with_node args i node)
    pure node

  -- The account's key and its secret words, which are saved.
  unfoldable pub make_key : InitArgs → ℕ → Action n.World (NodeKey n)
  make_key args i = do
    kb ← n.new_keyring args.keyring_backend (node_dir args i)
    algo ← calling (n.signing_algo args.algo kb)
    (addr, secret) ←
        or_clean args.output_dir (n.generate_save_coin_key kb (node_dir_name args i) algo)
    cli_print ← calling (n.marshal_secret secret)
    write_file n (n.join (node_dir args i ∷ lit "key_seed.json" ∷ [])) (node_dir args i) cli_print
    pure (record { keyring = kb; addr = addr })

  abbrev pub gentx_file : InitArgs → ℕ → Bytes → Bytes
  gentx_file args i id = n.join (gentxs_dir args i ∷ (lit "gentx-" ++ id ++ lit ".json") ∷ [])

  -- The application's configuration file.
  unfoldable pub write_app_toml : InitArgs → ℕ → Action (Progress n) Done
  write_app_toml args i = do
    modify (with_addresses args i)
    λ p.
        on_world
          (n.write_app_config (n.join (node_dir args i ∷ config_name ∷ lit "app.toml" ∷ []))
            p.app_config)
          p

module _ (k : Sdk) (n : Network) where
  -- The account's coins.
  unfoldable pub genesis_coins : Outcome Coins
  genesis_coins =
      Outcome.◌>>=◌ (or_panic (k.new_coin (lit "testtoken") (n.tokens_from_power 1000))) λ token.
        Outcome.◌>>=◌ (or_panic (k.new_coin default_bond_denom (n.tokens_from_power 500)))
          λ stake. ok (n.sort_coins (token ∷ stake ∷ []))

  -- The stake, by default of power 100.
  unfoldable pub stake_of : Option Coin → Outcome Coin
  stake_of (some coin) = ok coin
  stake_of none = or_panic (k.new_coin default_bond_denom (n.tokens_from_power 100))

  -- The signed transaction that creates the validator.
  unfoldable pub make_gentx : InitArgs → ℕ → Bytes × n.PubKey → NodeKey n → Action n.World Bytes
  make_gentx args i (id, key) owner = do
    val_tokens ← calling (stake_of (find i args.validators_stakes_amount))
    msg ←
        calling
          (n.new_msg_create_validator (n.val_text owner.addr) key val_tokens (node_dir_name args i))
    builder ← calling (n.set_msgs msg n.new_tx_builder)
    signed ←
        n.sign args.chain_id (peer_address args i id) owner.keyring (node_dir_name args i)
          (n.set_memo (peer_address args i id) builder)
    calling (n.encode_tx signed)

  -- The account and its transaction.
  unfoldable pub fill_node : InitArgs → ℕ → Bytes × n.PubKey → Action (Progress n) Done
  fill_node args i node = do
    owner ← on_world n (make_key n args i)
    coins ← calling genesis_coins
    modify n (with_account n owner.addr coins)
    tx_bz ← on_world n (make_gentx args i node owner)
    modify n (with_gentx n (gentx_file n args i node.0))
    on_world n (write_file n (gentx_file n args i node.0) (gentxs_dir n args i) tx_bz)

  unfoldable pub add_node : InitArgs → ℕ → Action (Progress n) Done
  add_node args i = do node ← open_node n args i; fill_node args i node; write_app_toml n args i
