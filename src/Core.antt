-- ===== src/Core.antt =====
-- src/chronos/core: the Redis namespace of a session, its atomic scripts and the audit outbox.
pub mod Errno
pub mod Action
pub mod Namespace
pub mod Scripts
pub mod State
pub mod Content
pub mod Audit
pub mod Evidence
pub mod Cleanup
pub mod Scoped
