-- ===== src/Cache.antt =====
-- lib/cache.js: the pooled allocator.
pub mod Extents
pub mod Pool
pub mod Registry
pub mod Bytes
pub mod Files
pub mod Heap
