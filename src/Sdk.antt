-- ===== src/Sdk.antt =====
-- The libraries under x/stablecoin, as a record of operations: cosmossdk.io/math, the Coin and
-- address functions of cosmos-sdk/types, the key-value store and the bank keeper. Their code is
-- not in the repository, so every definition of the module takes such a record. The records
-- of Laws state what their documentation promises.
mod Ops
mod Laws
pub use Ops.*
pub use Laws.*
