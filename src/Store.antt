-- ===== src/Store.antt =====
-- internal/head/types.go: `MemoryStore`, its operations (`Defs`), sequences of them (`Runs`) and
-- what they keep.
pub mod Defs
pub mod Runs
pub mod Fencing
pub mod Epochs
pub mod Stream
pub mod Reads
pub mod Refines
