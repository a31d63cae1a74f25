-- ===== src/App.antt =====
-- stbchain/app: the building of the app, the state export, the genesis accounts and the accounts
-- of the modules.
pub mod Keepers
pub mod Export
pub mod GenesisAccount
pub mod Accounts
pub mod Runtime
pub mod New
pub mod Modules
pub mod Config
pub mod Startup
