-- ===== src/Cmd/MultiNode/Gas.antt =====
-- The flag of the minimum gas prices.
use stable_coin.Prelude.{◌≡◌, refl, Bytes}
use stable_coin.Sdk.{Sdk}
use stable_coin.Cmd.Network.{Network, NodeConfig}
use stable_coin.Cmd.MultiNode.Flags.{InitArgs}
use stable_coin.Cmd.MultiNode.Node.{
  node_dir_name, node_dir, peer_address, open_node, make_key, make_gentx, fill_node, write_app_toml,
  add_node,
}
use stable_coin.Cmd.MultiNode.Collect.{
  connect_node, node_gentxs_dir, collect_node, collect_gen_files,
}
use stable_coin.Cmd.MultiNode.Run.{
  init_app_config, write_testnet, copy_gentxs, start, add_nodes, collect, init_testnet_files,
}

-- The files that initTestnetFiles writes, and all else that it does, do not depend on the minimum
-- gas prices of its arguments.
pub unused_gas_prices :
    (k : Sdk) (n : Network) (config : NodeConfig) (args : InitArgs) (prices : Bytes) (w : n.World)
    → init_testnet_files k n config (record args { min_gas_prices = prices }) w
      ≡ init_testnet_files k n config args w
unfolding init_testnet_files write_testnet start add_nodes collect init_app_config copy_gentxs
    node_gentxs_dir collect_gen_files collect_node connect_node node_dir node_dir_name add_node
    open_node fill_node make_key make_gentx write_app_toml peer_address
unused_gas_prices k n config args prices w = refl
