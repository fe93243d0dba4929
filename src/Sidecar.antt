-- ===== src/Sidecar.antt =====
-- crates/robot-edge/src/zenoh_bridge.rs: the sidecar beside the control loop.
pub mod Goal
pub mod Command
pub mod Video
