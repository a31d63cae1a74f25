-- ===== src/Lib.antt =====
-- Verification of stbchain: x/stablecoin, the Cosmos SDK module of the token, and the code of the
-- chain's own application and daemon around it.
--
-- The program. The module keeps its parameters (issuer, denom, a pause switch and a limit) and a
-- counter of the total supply in its own store, and asks the bank module to mint, send and burn
-- the coins. Three messages change the state: Mint and Burn for the issuer, UpdateParams for the
-- authority of the keeper, which is the governance module by default. One query reads the
-- parameters, and genesis import and export move them. The generated protobuf code turns every
-- message, and the stored parameters, into bytes and back; the generated services hand the decoded
-- requests to the handlers, and the gateway answers the query over HTTP. The application lists the
-- modules' accounts with their permissions, and exports its state, for a new chain at height 0 if
-- asked to: then it pays out the rewards, creates the distribution records anew, resets the
-- heights of all validators, unbondings and signing infos, and jails the validators that an allow
-- list lacks. Two commands of the daemon make test networks: one replaces the validators of a
-- copied chain by a single one and funds accounts, the other writes the directories of several
-- nodes.
--
-- The files. Prelude and its children hold the shared helpers: numbers, lists, bytes and signed
-- integers. Go has the results of Go calls (a value, an error or a panic), calls that change a
-- state and loops of them, maps with int and with text keys, and what is used of strings and
-- strconv. Sdk is the record of the library operations and the records of laws that their
-- documentation promises; every theorem names the laws that it needs.
--   Types/Params     stbchain/x/stablecoin/types/params.go, keys.go and errors.go: Validate and the
--                    defaults; Types/Params/Valid says what Validate accepts.
--   Types/Messages   the request structs of types/tx.pb.go.
--   Types/Genesis    types/genesis.go.
--   Keeper/State     stbchain/x/stablecoin/keeper/keeper.go, params.go, supply.go and genesis.go. A
--                    World is the module's store and the bank; Supply and Genesis are about them.
--   Keeper/Server    keeper/msg_server.go: mint and burn, each in two parts, the tests that only read
--                    and the calls that change the state, with the state kept after an error too.
--                    Checks, Effects, Mint, Burn and Refusals hold the theorems.
--   Keeper/Update    keeper/msg_update_params.go.
--   Keeper/Query     keeper/query_params.go.
--   Keeper/Trace     the committed states of the chain as a step relation over the handlers, with two
--                    invariants, Cap and Backing. Token is an abstract machine of the token alone,
--                    with its own events; Token/Steps, Runs, Net and Accepts hold the theorems about
--                    it.
--   Module           stbchain/x/stablecoin/module/depinject.go and module.go: the choice of the authority,
--                    and genesis as bytes; Authority and Genesis hold the theorems. Wiring has the rest
--                    of module.go, simulation.go and types/codec.go; Http and ReadBack hold the
--                    theorems on the route of the query.
--   Service          the services of types/tx.pb.go and query.pb.go: the generated handlers and the
--                    descriptions of the services; Delivery holds the theorems.
--   Gateway          types/query.pb.gw.go and the client of query.pb.go, over the runtime of the gateway.
--   Wire             stbchain/x/stablecoin/types/*.pb.go: Varint, Buffer (writing from the end of a
--                    slice) and Decode (the loop of Unmarshal and the skipping of unknown fields) are
--                    the text that the generated files repeat, taken from params.pb.go and tx.pb.go;
--                    Params, MsgMint, MsgBurn, MsgUpdateParams, GenesisState, QueryParamsResponse and
--                    ModuleConfig are the messages. Wire/Params/Store makes the codec of the stored
--                    parameters out of it, which the keeper takes as an interface.
--   App/Export       stbchain/app/export.go over the keepers of App/Keepers, which share a store; the
--                    height of the context is an argument. Distribution has the laws of the
--                    distribution keeper; Reset, Height and Pool hold the theorems.
--   App/New          New of stbchain/app/app.go and registerIBCModules of ibc.go over the constructors of
--                    App/Runtime; Keys holds the theorem.
--   App/Modules      the orders of the modules in stbchain/app/app_config.go; Provided holds the theorem.
--   App/Config       appConfig of stbchain/app/app_config.go: the modules with their configurations.
--   App/Startup      stbchain/app/config.go, init and RegisterAPIRoutes of app.go, and
--                    stbchain/docs/docs.go.
--   App/GenesisAccount   stbchain/app/genesis_account.go.
--   App/Accounts     the lists of stbchain/app/app_config.go, and GetMaccPerms and BlockedAddresses of
--                    app.go, as finite maps.
--   Cmd/Testnet      stbchain/cmd/stbchaind/cmd/testnet.go over the keepers of Cmd/InPlace and the bank
--                    of Sdk; Clear and Fund hold the theorems.
--   Cmd/MultiNode    stbchain/cmd/stbchaind/cmd/testnet_multi_node.go over the file system and the
--                    libraries of Cmd/Network: Options (the table of the flags), Flags (RunE),
--                    Files (writeFile, copyFile, isSubDir,
--                    generateRandomString), Node (one round of the loop over the nodes, on a
--                    record of the function's variables), GenFiles, Collect and Run
--                    (initTestnetFiles). Stakes, Peers, Supply and Gas hold the
--                    theorems.
--   Cmd/AppExport    newApp and appExport of commands.go; Loads holds the theorem.
--   Cmd/Commands     the trees of commands of commands.go.
--   Cmd/Root         root.go, config.go and main.go, with RegisterIBC of stbchain/app/ibc.go. The order
--                    in which a map is ranged over is an argument; Order holds the theorem.
--   Example, Tests   a small model of the libraries and the theorems at concrete inputs.
--
-- Bounds and fuel. An int and a uint64 are numbers below 2 ^ 64, an int negative from 2 ^ 63 on.
-- Reading a number needs no fuel. The loops of Unmarshal and of the skipping take the number of
-- bytes and one more as fuel; that is enough, since each round takes a byte. Writing a number
-- takes ten rounds at most, and len_bits 64. Integers of the SDK are unbounded in the model, and
-- the laws say where their operations panic beyond 256 bits. The loops of the application and the
-- commands run over lists or up to a number, and need no fuel. The number of a node is not wrapped
-- around, since a directory is made for each.
--
-- Not modelled. The libraries' own code (cosmos-sdk, cosmossdk.io, collections, cometbft, gRPC, the
-- gateway's runtime, cobra and the file system), which is a parameter; gas, events, logs and the
-- rollback of failed transactions, which the callers of the handlers do; the client of the Msg
-- service, the reflection code and the getters of the generated files; the empty response
-- messages; the table for autocli; the getters of the application; the long texts of the commands;
-- the TypeScript wallet.
pub mod Prelude
pub mod Go
pub mod Sdk
pub mod Types
pub mod Keeper
pub mod Wire
pub mod Service
pub mod Gateway
pub mod Module
pub mod App
pub mod Cmd
pub mod Example
pub mod Tests
