-- ===== src/Upstream.antt =====
-- internal/upstream/client.go: the failure circuit of one upstream, and its calls.
pub mod Defs
pub mod Circuit
pub mod Calls
