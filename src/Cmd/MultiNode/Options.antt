-- ===== src/Cmd/MultiNode/Options.antt =====
-- The flags of the multi-node command: NewTestnetMultiNodeCmd and addTestnetFlagsToCmd.
use stable_coin.Prelude.{ℕ, List, [], ◌∷◌, ◌++◌, Bytes, bytes_eq, if◌then◌else◌}
use stable_coin.Go.Strings.{lit}

pub data Default : Type 0 where
  number : ℕ → Default
  text : Bytes → Default

-- The names that are constants of the libraries.
pub record Names : Type 0 where
  pub flag_chain_id : Bytes
  pub flag_min_gas_prices : Bytes
  pub flag_key_type : Bytes
  pub flag_keyring_backend : Bytes
  pub default_bond_denom : Bytes
  pub secp256k1 : Bytes

abbrev flag_node_dir_prefix : Bytes
flag_node_dir_prefix = lit "node-dir-prefix"

abbrev flag_ports : Bytes
flag_ports = lit "list-ports"

abbrev flag_num_validators : Bytes
flag_num_validators = lit "v"

abbrev flag_output_dir : Bytes
flag_output_dir = lit "output-dir"

abbrev flag_validators_stake_amount : Bytes
flag_validators_stake_amount = lit "validators-stake-amount"

abbrev flag_starting_ip_address : Bytes
flag_starting_ip_address = lit "starting-ip-address"

module _ (n : Names) where
  -- addTestnetFlagsToCmd
  unfoldable pub testnet_flags : List (Bytes × Default)
  testnet_flags =
      (flag_num_validators, number 4)
      ∷ (flag_output_dir, text (lit "./.testnets"))
      ∷ (n.flag_chain_id, text [])
      ∷ (n.flag_min_gas_prices, text (lit "0.0001" ++ n.default_bond_denom))
      ∷ (n.flag_key_type, text n.secp256k1)
      ∷ []

  -- NewTestnetMultiNodeCmd
  unfoldable pub multi_node_flags : List (Bytes × Default)
  multi_node_flags =
      testnet_flags
      ++ ((flag_ports, text [])
          ∷ (flag_node_dir_prefix, text (lit "validator"))
          ∷ (flag_validators_stake_amount, text (lit "100000000,100000000,100000000,100000000"))
          ∷ (flag_starting_ip_address, text (lit "localhost"))
          ∷ (n.flag_keyring_backend, text (lit "test"))
          ∷ [])

  -- The function that is given to SetNormalizeFunc.
  unfoldable pub normalize_flag : Bytes → Bytes
  normalize_flag name = if bytes_eq name (lit "algo") then n.flag_key_type else name
