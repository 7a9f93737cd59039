-- ===== src/Examples.antt =====
-- Runs of the model at concrete inputs.
pub mod Sessions
pub mod Pairing
pub mod Prompts
pub mod Requests
pub mod Wire
pub mod Terminal
pub mod Exchange
mod Views
mod Answers
mod Approvals
mod Chats
