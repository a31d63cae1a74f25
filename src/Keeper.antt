-- ===== src/Keeper.antt =====
-- x/stablecoin/keeper over the libraries' record: the store access, the message server, the query
-- server and the genesis handlers. Theorems stand in the children of each.
pub mod State
pub mod Server
pub mod Update
pub mod Query
pub mod Trace
