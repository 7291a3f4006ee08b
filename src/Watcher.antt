-- ===== src/Watcher.antt =====
-- src/chronos/watcher: what is made of the audit log's events.
pub mod Events
pub mod Streamer
pub mod Collector
