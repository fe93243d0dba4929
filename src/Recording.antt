-- ===== src/Recording.antt =====
-- The black box: crates/roboprotocol-core/src/recording.rs and crates/roboprotocol-recording.
pub mod Record
pub mod Retention
pub mod Ring
