-- ===== src/Safety.antt =====
-- The safety layer: crates/roboprotocol-core/src/safety and crates/robot-edge/src/safety_task.rs.
pub mod Tiers
pub mod Watchdog
pub mod StateMachine
pub mod Arbitration
pub mod Task
