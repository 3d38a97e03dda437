-- ===== src/Coordinator.antt =====
-- internal/coordinator/coordinator.go: how an observed head becomes the accepted head of its chain.
pub mod Monad
pub mod Transition
pub mod Walks
pub mod Ancestry
pub mod Tracking
pub mod Evidence
pub mod Consider
pub mod Headers
pub mod Sessions
pub mod Chosen
pub mod Choice
