-- ===== src/Bulk.antt =====
-- Bulk objects: crates/roboprotocol-core/src/bulk.rs.
pub mod Grid
pub mod Header
pub mod Receiver
pub mod Sender
