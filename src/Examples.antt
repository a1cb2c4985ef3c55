-- ===== src/Examples.antt =====
-- Runs of the model at concrete inputs, at which the theorems apply.
pub mod Segments
pub mod Versions
pub mod Ports
pub mod Paths
pub mod Places
pub mod Shared
pub mod Tasks
pub mod Consumers
