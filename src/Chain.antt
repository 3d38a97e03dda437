-- ===== src/Chain.antt =====
-- internal/chain/runtime.go: the upstreams of one chain, the headers read from them, and the walk
-- from an accepted head to an older block. `Defs` models the code, the other modules are about it.
pub mod Defs
pub mod Reader
pub mod Availability
pub mod Probes
pub mod Links
pub mod Blocks
pub mod Pinning
