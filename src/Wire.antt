-- ===== src/Wire.antt =====
-- The small wire formats of crates/roboprotocol-core: datagram tags, the E-Stop datagram, the HELLO
-- negotiation, and the at-most-once gates of the Channel C streams.
pub mod Datagram
pub mod Estop
pub mod Dedup
