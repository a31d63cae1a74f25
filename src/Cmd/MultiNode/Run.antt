-- ===== src/Cmd/MultiNode/Run.antt =====
-- initTestnetFiles, and the command.
use stable_coin.Prelude.{ℕ, Bytes, Bool, true, false, List, [], ◌++◌, none, bytes_eq, if◌then◌else◌}
use stable_coin.Prelude.Int.{ℤ, pos, negsuc, pos_part}
use stable_coin.Go.Outcome.{Outcome, ok, err, panic, Done, Action}
use stable_coin.Go.Action.{◌>>=◌, ◌>>◌, pure, calling, for_each, for_count}
use stable_coin.Go.Strings.{lit}
use stable_coin.Sdk.{Sdk}
use stable_coin.Cmd.Network.{Network, NodeConfig, AppConfig}
use stable_coin.Cmd.MultiNode.Flags.{InitArgs, Flags, default_bond_denom, parse_args}
use stable_coin.Cmd.MultiNode.Files.{random_string, is_sub_dir, copy_file}
use stable_coin.Cmd.MultiNode.Node.{Progress, add_node}
use stable_coin.Cmd.MultiNode.GenFiles.{init_gen_files}
use stable_coin.Cmd.MultiNode.Collect.{Collected, node_gentxs_dir, collect_gen_files}

-- `make([]string, n)` panics for a negative length.
abbrev make_slices : ℤ → Outcome Done
make_slices (pos n) = ok tt
make_slices (negsuc n) = panic

-- `if err != nil || yes { continue }`
abbrev unless_inside : {S : Type 0} → Outcome Bool → Action S Done → Action S Done
unless_inside (ok true) rest = pure tt
unless_inside (ok false) rest = rest
unless_inside (err e) rest = pure tt
unless_inside panic rest = calling panic

-- The configuration of the applications: the second assignment of the gas prices is to the same
-- field.
unfoldable pub init_app_config : Bytes → AppConfig → AppConfig
init_app_config min_gas_prices config =
    let flagged = record config { min_gas_prices = min_gas_prices; api_enable = false } in
    record flagged {
      min_gas_prices = lit "0.0001" ++ default_bond_denom;
      enable_hostname_label = false;
      telemetry_enabled = false;
      prometheus_retention_time = 0;
    }

module _ (k : Sdk) (n : Network) where
  abbrev random_chain_id : Action n.World Bytes
  random_chain_id = do text ← random_string n 6; pure (lit "chain-" ++ text)

  unfoldable pub choose_chain_id : Bytes → Action n.World Bytes
  choose_chain_id chain_id = if bytes_eq chain_id [] then random_chain_id else pure chain_id

  -- A transaction's file is copied to a node, unless it is there or the test fails.
  unfoldable pub copy_gentx : Bytes → Bytes → Action n.World Done
  copy_gentx dir file = do
    inside ← λ w. (ok (is_sub_dir n file dir w), w)
    unless_inside inside (copy_file n file dir >>= λ _. pure tt)

  unfoldable pub copy_gentxs : InitArgs → List Bytes → ℕ → Action n.World Done
  copy_gentxs args files i = for_each (copy_gentx (node_gentxs_dir n args i)) files

  unfoldable pub start : InitArgs → NodeConfig → n.World → Progress n
  start args config w = record {
    world = w;
    node_config = config;
    app_config = init_app_config args.min_gas_prices n.default_app_config;
    node_ids = [];
    val_pub_keys = [];
    gen_accounts = [];
    gen_balances = [];
    gen_files = [];
    persistent_peers = [];
    gentxs_files = [];
  }

  -- The state is only the world again, whether the part returns or not.
  abbrev pub world_of : {S A : Type 0} → (S → n.World) → Outcome A × S → Outcome S × n.World
  world_of world (ok a, s) = (ok s, world s)
  world_of world (err e, s) = (err e, world s)
  world_of world (panic, s) = (panic, world s)

  unfoldable pub add_nodes : InitArgs → NodeConfig → Action n.World (Progress n)
  add_nodes args config w =
      world_of (λ p. p.world)
        (for_count (add_node k n args) 0 (pos_part args.num_validators) (start args config w))

  unfoldable pub collect : InitArgs → Progress n → Action n.World (Collected n)
  collect args p w =
      world_of (λ c. c.world)
        (collect_gen_files n args p.node_ids p.val_pub_keys p.persistent_peers
          (record { world = w; node_config = p.node_config; app_state = none }))

  -- After the chain id is chosen. The report at the end is not part of the result.
  unfoldable pub write_testnet : NodeConfig → InitArgs → Action n.World Done
  write_testnet config args = do
    calling (make_slices args.num_validators)
    p ← add_nodes args config
    init_gen_files n args.chain_id p.gen_accounts p.gen_balances p.gen_files args.num_validators
    for_count (copy_gentxs args p.gentxs_files) 0 (pos_part args.num_validators)
    collected ← collect args p
    pure tt

  unfoldable pub init_testnet_files : NodeConfig → InitArgs → Action n.World Done
  init_testnet_files config given = do
    chain_id ← choose_chain_id given.chain_id
    write_testnet config (record given { chain_id = chain_id })

  -- RunE, on the configuration of the server's context; an error of the client's context comes
  -- first.
  unfoldable pub run_multi_node : Outcome Done → NodeConfig → Flags → Action n.World Done
  run_multi_node client_ctx config flags = do
    calling client_ctx
    args ← calling (parse_args k flags)
    init_testnet_files config args
