-- ===== src/Command.antt =====
-- The command of cmd/server/main.go: the device plugin's start, the daemon that it runs in, and what is
-- logged of a request.
pub mod Plugin
pub mod Log
pub mod Service
pub mod Daemon
