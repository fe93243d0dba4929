-- ===== src/Layout.antt =====
-- Payload sizes and field layouts: crates/roboprotocol-core/src/sizing.rs, profile.rs and hello.rs.
pub mod Sizing
pub mod Profile
