-- ===== src/Tests/Cmd.antt =====
-- The testnet commands at concrete values.
use stable_coin.Prelude.{
  List, some, ℕ, ◌≡◌, ◌≢◌, refl, Bytes, false, [], ◌∷◌, length, if◌then◌else◌, bytes_eq,
}
use stable_coin.Prelude.Int.{pos, ◌+ℤ◌, ◌-ℤ◌}
use stable_coin.Go.Outcome.{Outcome, ok, external}
use stable_coin.Go.Action.{for_each, for_count}
use stable_coin.Go.IntMap.{find, get_elem?}
use stable_coin.Go.Strings.{lit, is_blank}
use stable_coin.Go.Strings.Itoa.{itoa}
use stable_coin.Sdk.{Coin, amount_of}
use stable_coin.Cmd.InPlace.{
  OptionKey, OptionValue, new_val_addr, user_pub_key, new_op_addr, trigger_testnet_upgrade,
  accounts_to_fund, home, text, hex_bytes, pub_key,
}
use stable_coin.Cmd.Testnet.{
  ValArgs, TestState, delete_all, delete_keys, remove_validators, replace_validators, new_validator,
  add_validator, initialize_records, fund_account, init_app_for_testnet, new_testnet_app,
}
use stable_coin.Cmd.Testnet.Fund.{times, supply-init_app, unfunded_exit}
use stable_coin.Cmd.Network.{NodeConfig, Balance, BankGenesis}
use stable_coin.Cmd.MultiNode.Flags.{InitArgs, parse_stakes}
use stable_coin.Cmd.MultiNode.Stakes.{numbers, found_amount, stakes_shift}
use stable_coin.Cmd.MultiNode.Node.{
  Progress, node_dir_name, node_dir, configure_node, peer_address, add_peer, or_clean, open_node,
  make_key, genesis_coins, stake_of, make_gentx, fill_node, write_app_toml, add_node,
}
use stable_coin.Cmd.MultiNode.Files.{write_file}
use stable_coin.Cmd.MultiNode.Run.{init_app_config, start, add_nodes, init_testnet_files}
use stable_coin.Cmd.MultiNode.Peers.{peer_addresses, joined, add_nodes-joined}
use stable_coin.Cmd.MultiNode.GenFiles.{add_balances, fill_bank, fill_genesis}
use stable_coin.Cmd.MultiNode.Supply.{total, fill_genesis-supply}
use stable_coin.Cmd.MultiNode.Gas.{unused_gas_prices}
use stable_coin.Example.Chain.{chain, chain-CoinLaws, chain-BankLaws}
use stable_coin.Example.Nodes.{remove, walk, in_place, network, network-AddLaws}

abbrev test_args : ValArgs
test_args = record {
  new_val_addr = lit "cons";
  new_operator_address = lit "op";
  new_val_pub_key = lit "key";
  accounts_to_fund = lit "alice" ∷ lit "bob" ∷ [];
  upgrade_to_trigger = [];
  home_dir = lit "home";
}

abbrev test_state : TestState chain in_place
test_state = record { staking = lit "!a" ∷ []; bank = [] }

abbrev funded_state : TestState chain in_place
funded_state = (init_app_for_testnet chain in_place test_args test_state).1

supply-init_app_example :
    (denom : Bytes) × (in_place.bond_denom funded_state.staking ≡ ok denom)
    × ((d : Bytes)
        → chain.supply_of d funded_state.bank
          ≡ pos 0 +ℤ times 2 (if bytes_eq denom d then pos 1000000000 else pos 0))
unfolding init_app_for_testnet replace_validators new_validator remove_validators delete_keys
    delete_all walk add_validator initialize_records for_each fund_account remove ◌-ℤ◌ ◌+ℤ◌ is_blank
supply-init_app_example =
    supply-init_app chain chain-BankLaws in_place chain-CoinLaws test_args test_state funded_state
      refl

abbrev no_accounts : OptionKey → OptionValue
no_accounts new_val_addr = hex_bytes (lit "cons")
no_accounts user_pub_key = pub_key (lit "key")
no_accounts new_op_addr = text (lit "op")
no_accounts trigger_testnet_upgrade = text []
no_accounts accounts_to_fund = text []
no_accounts home = text (lit "home")

unfunded_exit_example : new_testnet_app chain in_place no_accounts test_state ≢ (ok tt, test_state)
unfolding is_blank
unfunded_exit_example =
    unfunded_exit chain in_place no_accounts (external 1) test_state test_state refl refl

abbrev third : ℕ
third = 3

abbrev coin : ℕ → Coin
coin a = record { denom = lit "stake"; amount = pos a }

stakes_shift_example :
    found_amount (find 1 ((1, coin 300) ∷ (0, coin 100) ∷ []))
    ≡ get_elem? (numbers chain (lit "100" ∷ lit "x" ∷ lit "300" ∷ [])) 1
unfolding parse_stakes
stakes_shift_example =
    stakes_shift chain chain-CoinLaws (lit "100" ∷ lit "x" ∷ lit "300" ∷ []) 1
      ((1, coin 300) ∷ (0, coin 100) ∷ []) refl

abbrev two_nodes : InitArgs
two_nodes = record {
  algo = lit "secp256k1";
  chain_id = lit "test";
  keyring_backend = lit "test";
  min_gas_prices = lit "1stake";
  node_dir_prefix = lit "validator";
  num_validators = pos 2;
  output_dir = lit "out";
  starting_ip_address = lit "localhost";
  validators_stakes_amount = [];
  ports = (1, lit "26654") ∷ (0, lit "26657") ∷ [];
}

abbrev node_config : NodeConfig
node_config = record {
  root_dir = [];
  moniker = [];
  rpc_listen_address = [];
  p2p_listen_address = [];
  persistent_peers = [];
  allow_duplicate_ip = false;
  proxy_app = [];
  prometheus_listen_addr = [];
  prometheus = false;
  other_fields = [];
}

abbrev made_of : Outcome (Progress network) → Progress network
made_of (ok p) = p
made_of r = start chain network two_nodes node_config 0

abbrev made : Progress network
made = made_of (add_nodes chain network two_nodes node_config 0).0

add_nodes-joined_example :
    (length made.node_ids ≡ 2)
    × (length made.val_pub_keys ≡ 2)
    × (length made.gen_files ≡ 2)
    × (made.persistent_peers ≡ joined (peer_addresses two_nodes 0 made.node_ids))
unfolding add_nodes start init_app_config for_count add_node open_node fill_node write_app_toml
    make_key make_gentx genesis_coins stake_of or_clean node_dir node_dir_name configure_node
    peer_address add_peer write_file itoa ◌-ℤ◌
add_nodes-joined_example = add_nodes-joined chain network two_nodes node_config 0 2 made refl

unused_gas_prices_example :
    init_testnet_files chain network node_config
      (record two_nodes { min_gas_prices = lit "9stake" })
      0
    ≡ init_testnet_files chain network node_config two_nodes 0
unused_gas_prices_example = unused_gas_prices chain network node_config two_nodes (lit "9stake") 0

abbrev balances : List Balance
balances =
    record { address = lit "alice"; coins = coin 5 ∷ [] }
    ∷ record { address = lit "bob"; coins = coin 7 ∷ [] }
    ∷ []

abbrev state_of : Outcome (Bytes → Bytes) → Bytes → Bytes
state_of (ok state) = state
state_of r = λ name. name

abbrev genesis_state : Bytes → Bytes
genesis_state = state_of (fill_genesis network (lit "a" ∷ lit "b" ∷ []) balances)

fill_genesis-supply_example :
    (before : BankGenesis) × (after : BankGenesis) × (network.unmarshal_bank [] ≡ some before)
    × (network.marshal_bank after ≡ some (genesis_state (lit "bank")))
    × (after.balances ≡ balances)
    × (amount_of (lit "stake") after.supply
        ≡ amount_of (lit "stake") before.supply +ℤ total (lit "stake") after.balances)
    × ((other : Bytes)
        → bytes_eq other (lit "auth") ≡ false
        → bytes_eq other (lit "bank") ≡ false
        → genesis_state other ≡ [])
unfolding fill_genesis fill_bank add_balances
fill_genesis-supply_example =
    fill_genesis-supply network network-AddLaws (lit "stake") (lit "a" ∷ lit "b" ∷ []) balances
      genesis_state refl
