-- ===== src/Pipeline.antt =====
-- lib/pipeline.js: what a file is, decided once per publication, and the checks of the hierarchy.
pub mod Platform
pub mod Prepare
pub mod Preparers
pub mod Bytecode
pub mod Hierarchy
pub mod Subtree
pub mod Ancestors
