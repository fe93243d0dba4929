-- ===== src/Lib.antt =====
-- A model of the RoboProtocol library and of the robot and operator programs built on it.
--
-- An operator drives a robot over one QUIC connection. Commands and telemetry go in datagrams
-- (Channel B), video in datagrams that are cut from NAL units (Channel A), the E-Stop in a small
-- datagram of its own, large objects each on a stream. On the robot, a safety task watches the
-- datagrams of Channel B and decides at each tick which source drives. The lossy datagrams wait in
-- a queue before the connection; a recorder writes what passes into segment files.
--
-- Which file models what (paths from the repository's root):
--   Safety.Tiers, Watchdog, StateMachine, Arbitration
--       crates/roboprotocol-core/src/safety/{tiers,watchdog,state_machine,arbitration}.rs
--   Safety.Task          crates/robot-edge/src/safety_task.rs, which composes those four
--   Wire.Datagram, Wire.Estop, Wire.Dedup
--       crates/roboprotocol-core/src/{datagram,estop,action_trigger,camera_control}.rs
--   Video.Chunk, Video.Reassembler
--       crates/roboprotocol-core/src/video.rs: chunk_nal and NalReassembler
--   Video.ChannelA, Video.Gate
--       crates/operator-console/src/video/{channel_a,gate}.rs
--   Bulk.Header, Bulk.Receiver, Bulk.Grid
--       crates/roboprotocol-core/src/bulk.rs
--   Bulk.Sender          crates/robot-edge/src/bulk_sender.rs
--   Sensor.Slice, Sensor.Interleave, Sensor.Assembler, Sensor.Points, Sensor.RangeImage,
--   Sensor.Depth, Sensor.Descriptor, Sensor.Float
--       crates/roboprotocol-core/src/sensor.rs
--   Layout.Sizing, Layout.Profile
--       crates/roboprotocol-core/src/{sizing,profile}.rs
--   ChannelB.Fields, ChannelB.Shapes, ChannelB.Robot, ChannelB.Operator
--       crates/roboprotocol-core/src/profile.rs and crates/{robot-edge,operator-console}/src/channel_b.rs;
--       ChannelB.Exchange has what one side reads of the other, ChannelB.Frame the frame around it
--   Hello                crates/roboprotocol-core/src/hello.rs
--   Lossy.Queue          crates/robot-edge/src/lossy_queue.rs
--   Sidecar.Goal, Sidecar.Command, Sidecar.Video
--       crates/robot-edge/src/zenoh_bridge.rs
--   Topic.Sample, Topic.Outbox, Topic.Reader
--       crates/roboprotocol-core/src/topic.rs
--   Recording.Record, Recording.Retention
--       crates/roboprotocol-core/src/recording.rs
--   Recording.Ring       crates/roboprotocol-recording/src/{ring,lib}.rs
-- The files below each of these hold its theorems, and Tests the theorems at concrete inputs.
-- Prelude has what they share: Boolean tests, lists over native numbers, big-endian bytes, maps as
-- association lists, results.
--
-- How the code is read. A struct is a record, an enum a data type; a method with `&mut self` is a
-- function from the old state to the new one and the result. An `Instant`, a duration and a float of
-- milliseconds are numbers of nanoseconds, so a comparison of floats is one of whole numbers. A byte
-- is a number; a function that reads bytes takes any numbers. `u32` and `u64` are unbounded where
-- the source only counts or compares, and wrap around (`% 2 ^ w`) where it computes with a width.
-- `saturating_sub` is the subtraction that stops at 0. A hash map or a tree map is an association
-- list; where the source iterates in key order, the model takes a minimum over the keys. A history
-- is a list of calls, the newest first, and `replay` runs it.
--
-- Bounds and fuel. The loops recurse on their lists or on a count. `Video.Chunk.chunks` and
-- `Recording.Record.decode_records` run on fuel, as does `Topic.Reader.frames`: the length of the list
-- or buffer, which is enough since every step consumes at least one element. A pump of
-- `Bulk.Sender` turns at most once more than an object has bytes left: a turn that is followed by
-- another has sent one at least.
--
-- Not modelled. Sockets, quiche and its connection state, threads, locks, async tasks and timers;
-- Zenoh, GStreamer, the gamepad and the user interface; files. The f32 arithmetic of
-- interpolation and rate control; the f32 of sensors and commands is an interface, whose operations
-- and laws are parameters. The Python simulator and bridges, the web
-- client, tools and benchmarks.
pub mod Prelude
pub mod Safety
pub mod Wire
pub mod Video
pub mod Recording
pub mod Bulk
pub mod Layout
pub mod Lossy
pub mod Sensor
pub mod Sidecar
pub mod ChannelB
pub mod Topic
pub mod Hello
mod Tests
