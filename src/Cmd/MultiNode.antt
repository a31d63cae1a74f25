-- ===== src/Cmd/MultiNode.antt =====
-- stbchain/cmd/stbchaind/cmd/testnet_multi_node.go: the flags of the command, the ports, the files
-- of one node, the loop over the nodes, the genesis files, and the command.
pub mod Flags
pub mod Options
pub mod Peers
pub mod Gas
pub mod Supply
pub mod Stakes
pub mod Files
pub mod Node
pub mod GenFiles
pub mod Collect
pub mod Run
