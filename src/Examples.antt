-- ===== src/Examples.antt =====
-- Concrete tables and calls at which the theorems apply.
pub mod Data
mod Limits
mod Watch
mod Pages
mod Connections
mod Mailing
mod Session
mod Files
mod Support
mod Inbox
mod Chunks
mod Queue
mod Rbac
mod Board
mod Approval
