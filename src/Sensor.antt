-- ===== src/Sensor.antt =====
-- crates/roboprotocol-core/src/sensor.rs: sensor frames carried as interleaved slices.
pub mod Slice
pub mod Interleave
pub mod Assembler
pub mod Float
pub mod Points
pub mod RangeImage
pub mod Depth
pub mod Descriptor
