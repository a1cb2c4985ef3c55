-- ===== src/Routing.antt =====
-- lib/registry.js: from an absolute path to a place and a key, and from there to one decision.
pub mod Canonical
pub mod Keys
pub mod Derivatives
pub mod Places
pub mod Paths
pub mod Router
pub mod Isolation
pub mod Moves
