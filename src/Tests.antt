-- ===== src/Tests.antt =====
-- The theorems at concrete inputs: a chain of three blocks with a fork, a store, and a cache.
mod Fixtures
mod Coordination
mod Chains
mod Stores
mod Shared
mod Routing
mod Sockets
mod Configs
mod Validations
mod Caches
mod Gateways
mod Answers
mod Clients
