-- ===== src/Examples.antt =====
-- The theorems at concrete inputs.
pub mod Classes
pub mod Placement
pub mod Routing
pub mod Endpoints
pub mod Runs
pub mod Writing
pub mod Lifecycle
pub mod Names
