-- ===== src/Tests.antt =====
-- The theorems at concrete inputs.
mod Safety
mod Wire
mod Video
mod Recording
mod Bulk
mod Sending
mod Layout
mod Lossy
mod Topic
mod Hello
mod Sensor
mod Encodings
mod ChannelB
mod Sidecar
