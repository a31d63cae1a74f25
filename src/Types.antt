-- ===== src/Types.antt =====
-- x/stablecoin/types: parameters and their validation, messages, keys and the default genesis.
pub mod Params
pub mod Messages
pub mod Genesis
