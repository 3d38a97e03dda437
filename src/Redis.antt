-- ===== src/Redis.antt =====
-- internal/head/redis.go: the store that the replicas of the proxy share.
pub mod Defs
pub mod Calls
pub mod Refines
pub mod Fencing
pub mod Reads
pub mod Resume
