-- ===== src/ChannelB/Frame.antt =====
-- crates/roboprotocol-proto/schemas/roboprotocol.fbs: the frame of Channel B. FlatBuffers is an
-- interface: it writes the fields of a table and reads them again.
pub mod Robot
pub mod Operator
pub mod Exchanged
use robotele.Prelude.{ℕ, ◌≡◌, Option, List}

-- The generated code has the enum as its byte.
abbrev pub FbCategory : Type 0
FbCategory = ℕ

abbrev pub command : FbCategory
command = 0

abbrev pub telemetry : FbCategory
telemetry = 1

abbrev pub haptic : FbCategory
haptic = 2

pub record ChannelBFrame : Type 0 where
  pub timestamp : ℕ
  pub seq : ℕ
  pub tick_id : ℕ
  pub category : FbCategory
  pub region_id : ℕ
  pub fields : Option (List ℕ)

pub record FlatBuffers : Type 0 where
  pub finished_data : ChannelBFrame → List ℕ
  pub get_root : List ℕ → ChannelBFrame
  pub get_root-finished_data : (f : ChannelBFrame) → get_root (finished_data f) ≡ f
