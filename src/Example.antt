-- ===== src/Example.antt =====
-- A small model of the libraries, on which the tests run. It is not their code: each operation is
-- a simple function that keeps what the documentation promises.
pub mod Decimal
pub mod Ledger
pub mod Chain
pub mod Staking
pub mod Rewards
pub mod Nodes
pub mod Build
