-- ===== src/Go.antt =====
-- What the model uses of the Go language and its standard library: how a call ends, calls that
-- change a state, string literals and `strings.TrimSpace`.
pub mod Outcome
pub mod Action
pub mod IntMap
pub mod Map
pub mod Strings
