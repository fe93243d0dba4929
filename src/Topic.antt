-- ===== src/Topic.antt =====
-- Forwarded topics: crates/roboprotocol-core/src/topic.rs.
pub mod Sample
pub mod Reader
pub mod Outbox
