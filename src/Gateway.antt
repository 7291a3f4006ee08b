-- ===== src/Gateway.antt =====
-- src/chronos/gateway: what a session's command line becomes, and how it is run.
pub mod Parser
pub mod Environment
pub mod Dispatcher
