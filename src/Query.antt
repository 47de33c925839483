-- ===== src/Query.antt =====
-- src/handlers/query.rs: execution of statements on a connection, and of a batch in a session.
pub mod Server
pub mod Client
pub mod Pooled
pub mod Batch
pub mod Replies
pub mod Requests
pub mod Controls
