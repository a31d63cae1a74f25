-- ===== src/Cmd/MultiNode/Collect.antt =====
-- collectGenFiles: every node's configuration file and final genesis file.
use stable_coin.Prelude.{◌*◌, ◌+◌, ℕ, Bytes, true, List, [], ◌∷◌, ◌++◌, Option, none, some}
use stable_coin.Prelude.Int.{pos_part, pos, ◌-ℤ◌}
use stable_coin.Go.Outcome.{ok, Done, Action, or_panic}
use stable_coin.Go.Action.{◌>>=◌, ◌>>◌, calling, for_count}
use stable_coin.Go.IntMap.{get_elem?, find_text}
use stable_coin.Go.Strings.{lit}
use stable_coin.Go.Strings.Itoa.{itoa}
use stable_coin.Cmd.Network.{Network, NodeConfig}
use stable_coin.Cmd.MultiNode.Flags.{InitArgs}
use stable_coin.Cmd.MultiNode.Node.{node_dir_name, node_dir, config_name}

pub record Collected (n : Network) : Type 0 where
  pub world : n.World
  pub node_config : NodeConfig
  pub app_state : Option Bytes

-- `if appState == nil { appState = nodeAppState }`
abbrev first_of : Option Bytes → Option Bytes → Option Bytes
first_of none state = state
first_of (some state) other = some state

unfoldable pub connect_node : InitArgs → ℕ → Bytes → NodeConfig → NodeConfig
connect_node args i peers config = record config {
  persistent_peers = peers;
  allow_duplicate_ip = true;
  p2p_listen_address = lit "tcp://0.0.0.0:" ++ itoa (pos 26656 -ℤ pos (3 * i));
  rpc_listen_address = lit "tcp://127.0.0.1:" ++ find_text i args.ports;
  proxy_app = lit "tcp://127.0.0.1:" ++ itoa (pos 26658 -ℤ pos (3 * i));
  prometheus_listen_addr = lit ":" ++ itoa (pos (26660 + i));
  prometheus = true;
}

module _ (n : Network) where
  abbrev on_files : {A : Type 0} → Action n.World A → Action (Collected n) A
  on_files f c = let (r, w) = f c.world in (r, record c { world = w })

  abbrev update : (Collected n → Collected n) → Action (Collected n) Done
  update f c = (ok tt, f c)

  -- The gentx directory is made from the node's directory.
  unfoldable pub node_gentxs_dir : InitArgs → ℕ → Bytes
  node_gentxs_dir args i = n.join (node_dir n args i ∷ config_name ∷ lit "gentx" ∷ [])

  unfoldable pub collect_node :
      InitArgs → List Bytes → List n.PubKey → Bytes → n.Time → ℕ → Action (Collected n) Done
  collect_node args node_ids val_pub_keys peers gen_time i = do
    update (λ c. record c {
      node_config = record (c.node_config) {
        moniker = node_dir_name args i;
        root_dir = node_dir n args i;
      };
    })
    id ← calling (or_panic (get_elem? node_ids i))
    key ← calling (or_panic (get_elem? val_pub_keys i))
    genesis ← λ c. on_files (n.app_genesis_from_file (n.genesis_file c.node_config)) c
    state ← λ c.
        on_files
          (n.gen_app_state_from_config c.node_config args.chain_id (node_gentxs_dir args i) id key
            genesis)
          c
    update (λ c. record c { node_config = connect_node args i peers c.node_config })
    λ c.
        on_files
          (n.write_node_config
            (n.join (c.node_config.root_dir ∷ config_name ∷ lit "config.toml" ∷ [])) c.node_config)
          c
    update (λ c. record c { app_state = first_of c.app_state state })
    λ c.
        on_files
          (n.export_genesis_file_with_time (n.genesis_file c.node_config) args.chain_id c.app_state
            gen_time)
          c

  unfoldable pub collect_gen_files :
      InitArgs → List Bytes → List n.PubKey → Bytes → Action (Collected n) Done
  collect_gen_files args node_ids val_pub_keys peers = do
    gen_time ← on_files n.now
    for_count (collect_node args node_ids val_pub_keys peers gen_time) 0
        (pos_part args.num_validators)
