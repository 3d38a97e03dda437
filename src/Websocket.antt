-- ===== src/Websocket.antt =====
-- internal/gateway/websocket.go: a client's subscription to accepted heads.
pub mod Feed
pub mod Paths
pub mod Gapless
pub mod Loop
pub mod Window
pub mod Session
pub mod Replies
