-- ===== src/Health.antt =====
-- src/health, a child for each of its files.
pub mod StateMachine
pub mod Manager
pub mod Probe
