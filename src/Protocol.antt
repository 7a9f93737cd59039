-- ===== src/Protocol.antt =====
-- internal/protocol: the messages between the terminal client and the gateway.
pub mod Types
pub mod PairCode
pub mod Sse
pub mod Messages
