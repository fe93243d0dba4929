-- ===== src/ChannelB.antt =====
-- The commands and the telemetry of Channel B, from their fields to bytes and back.
pub mod Fields
pub mod Shapes
pub mod Robot
pub mod Operator
pub mod Exchange
pub mod Frame
