-- ===== src/Server.antt =====
-- The package internal/server.
pub mod Handlers
pub mod Auth
pub mod Handling
pub mod RequestLog
pub mod Http
pub mod Tools
