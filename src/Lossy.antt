-- ===== src/Lossy.antt =====
-- The lossy datagrams' queue: crates/robot-edge/src/lossy_queue.rs.
pub mod Queue
