-- ===== src/Session.antt =====
-- internal/session: the life of the gateway's sessions, in memory.
pub mod Types
pub mod Create
pub mod Approve
pub mod Prompt
pub mod Destroy
pub mod Validity
pub mod Trace
pub mod Refinement
