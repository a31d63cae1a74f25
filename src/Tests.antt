-- ===== src/Tests.antt =====
-- The theorems at concrete inputs, on the small model of the libraries.
pub mod Scenario
pub mod Wire
pub mod Keeper
pub mod Trace
pub mod Token
pub mod Module
pub mod Http
pub mod App
pub mod Cmd
pub mod Root
