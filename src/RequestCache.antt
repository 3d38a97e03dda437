-- ===== src/RequestCache.antt =====
-- internal/services/requestcache: the bounded cache of RPC results.
pub mod Defs
pub mod Bounds
pub mod Runs
pub mod History
