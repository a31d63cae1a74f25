-- ===== src/Cmd/Commands.antt =====
-- stbchain/cmd/stbchaind/cmd/commands.go: the commands of the daemon. What the libraries build is
-- a parameter.
use stable_coin.Prelude.{ℕ, List, [], ◌∷◌, Bytes, Bool, false}
use stable_coin.Go.Map.{Entries}
use stable_coin.Go.Strings.{lit}

-- The commands that libraries build without an argument of this program.
pub data LibraryCommand : Type 0 where
  debug_cmd config_command status_command keys_commands : LibraryCommand
  wait_tx_cmd validator_command query_block_cmd query_txs_by_events_cmd : LibraryCommand
  query_blocks_cmd query_tx_cmd query_block_results_cmd : LibraryCommand
  get_sign_command get_sign_batch_command get_multi_sign_command : LibraryCommand
  get_multi_sign_batch_cmd get_validate_signatures_command line_break : LibraryCommand
  get_broadcast_command get_encode_command get_decode_command get_simulate_cmd : LibraryCommand

-- The fields of cobra.Command that commands.go sets; RunE is client.ValidateCmd in both.
pub record Labels : Type 0 where
  pub usage : Bytes
  pub aliases : List Bytes
  pub short : Bytes
  pub disable_flag_parsing : Bool
  pub suggestions_minimum_distance : ℕ

-- The command libraries. `pruning_cmd`, `snapshot_cmd` and `add_start_commands` are given newApp
-- and appExport, and all that take a home directory are given DefaultNodeHome.
pub record Cobra : Type 1 where
  pub Command : Type 0
  pub TxConfig : Type 0
  pub Basic : Type 0
  pub library : LibraryCommand → Command
  pub parent : Labels → Command
  pub add_command : List Command → Command → Command
  pub init_cmd : Entries Basic → Command
  pub genesis_commands : TxConfig → Entries Basic → Command
  pub in_place_testnet_cmd : Command
  pub testnet_multi_node_cmd : Entries Basic → Command
  pub pruning_cmd : Command
  pub snapshot_cmd : Command
  pub add_start_commands : (Command → Command) → Command → Command

-- addModuleInitFlags
unfoldable pub add_module_init_flags : {Command : Type 0} → Command → Command
add_module_init_flags start_cmd = start_cmd

module _ (b : Cobra) where
  -- queryCommand
  unfoldable pub query_command : b.Command
  query_command =
      b.add_command
        (b.library wait_tx_cmd
          ∷ b.library validator_command
          ∷ b.library query_block_cmd
          ∷ b.library query_txs_by_events_cmd
          ∷ b.library query_blocks_cmd
          ∷ b.library query_tx_cmd
          ∷ b.library query_block_results_cmd
          ∷ [])
        (b.parent (record {
          usage = lit "query";
          aliases = lit "q" ∷ [];
          short = lit "Querying subcommands";
          disable_flag_parsing = false;
          suggestions_minimum_distance = 2;
        }))

  -- txCommand
  unfoldable pub tx_command : b.Command
  tx_command =
      b.add_command
        (b.library get_sign_command
          ∷ b.library get_sign_batch_command
          ∷ b.library get_multi_sign_command
          ∷ b.library get_multi_sign_batch_cmd
          ∷ b.library get_validate_signatures_command
          ∷ b.library line_break
          ∷ b.library get_broadcast_command
          ∷ b.library get_encode_command
          ∷ b.library get_decode_command
          ∷ b.library get_simulate_cmd
          ∷ [])
        (b.parent (record {
          usage = lit "tx";
          aliases = [];
          short = lit "Transactions subcommands";
          disable_flag_parsing = false;
          suggestions_minimum_distance = 2;
        }))

  -- initRootCmd
  unfoldable pub init_root_cmd : b.TxConfig → Entries b.Basic → b.Command → b.Command
  init_root_cmd tx_config basic_manager root_cmd =
      b.add_command
        (b.library status_command
          ∷ b.genesis_commands tx_config basic_manager
          ∷ query_command
          ∷ tx_command
          ∷ b.library keys_commands
          ∷ [])
        (b.add_start_commands add_module_init_flags (
          b.add_command
            (b.init_cmd basic_manager
              ∷ b.in_place_testnet_cmd
              ∷ b.testnet_multi_node_cmd basic_manager
              ∷ b.library debug_cmd
              ∷ b.library config_command
              ∷ b.pruning_cmd
              ∷ b.snapshot_cmd
              ∷ [])
            root_cmd))
