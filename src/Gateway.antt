-- ===== src/Gateway.antt =====
-- internal/gateway: the HTTP server.
pub mod Limiter
pub mod Server
pub mod Routes
pub mod Handlers
pub mod Prompt
