-- ===== src/Server.antt =====
-- pkg/server.
pub mod Registry
pub mod Runtime
pub mod Device
