-- ===== src/Skills.antt =====
-- src/chronos/skills: what the watcher reads in commands and sessions.
pub mod Threats
pub mod Commands
pub mod Detector
