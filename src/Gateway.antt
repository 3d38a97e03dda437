-- ===== src/Gateway.antt =====
-- internal/gateway: what the gateway does with the results of the upstreams.
pub mod Registry
pub mod Requests
pub mod Dispatch
pub mod Pinned
pub mod Ranges
pub mod Served
pub mod Process
pub mod Admission
pub mod Verification
pub mod Solana
pub mod Slots
pub mod Route
pub mod Routed
pub mod Nulls
pub mod Fence
pub mod Epochs
