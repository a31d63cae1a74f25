-- ===== src/Cmd.antt =====
-- stbchain/cmd/stbchaind/cmd: the commands that change a chain's state or write its files.
pub mod InPlace
pub mod Testnet
pub mod Network
pub mod MultiNode
pub mod AppExport
pub mod Commands
pub mod Root
