-- ===== src/Video.antt =====
-- Channel A: crates/roboprotocol-core/src/video.rs, and the operator's gate in
-- crates/operator-console/src/video/gate.rs.
pub mod Chunk
pub mod Reassembler
pub mod ChannelA
pub mod Gate
