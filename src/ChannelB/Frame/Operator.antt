-- ===== src/ChannelB/Frame/Operator.antt =====
-- crates/operator-console/src/channel_b.rs: a frame of Channel B on the operator's side.
use robotele.Prelude.{ℕ, ◌==◌, if◌then◌else◌, Option, none, some, List, []}
use robotele.ChannelB.Frame.{FbCategory, FlatBuffers}
use robotele.ChannelB.Frame

pub data ChannelBCategory : Type 0 where
  command telemetry haptic : ChannelBCategory

abbrev pub to_fb_category : ChannelBCategory → FbCategory
to_fb_category command = Frame.command
to_fb_category telemetry = Frame.telemetry
to_fb_category haptic = Frame.haptic

abbrev pub from_fb_category : FbCategory → ChannelBCategory
from_fb_category c =
    if c == Frame.telemetry then telemetry else if c == Frame.haptic then haptic else command

pub record ChannelBFrameData : Type 0 where
  pub timestamp : ℕ
  pub seq : ℕ
  pub tick_id : ℕ
  pub category : ChannelBCategory
  pub region_id : ℕ
  pub fields : List ℕ

abbrev pub all_regions : ℕ
all_regions = 255

abbrev or_empty : Option (List ℕ) → List ℕ
or_empty none = []
or_empty (some bytes) = bytes

unfoldable pub encode_channel_b_frame : FlatBuffers → ChannelBFrameData → List ℕ
encode_channel_b_frame fb frame = fb.finished_data (record {
  timestamp = frame.timestamp;
  seq = frame.seq;
  tick_id = frame.tick_id;
  category = to_fb_category frame.category;
  region_id = frame.region_id;
  fields = some frame.fields;
})

unfoldable pub decode_channel_b_frame : FlatBuffers → List ℕ → ChannelBFrameData
decode_channel_b_frame fb buf =
    let f = fb.get_root buf in
    record {
      timestamp = f.timestamp;
      seq = f.seq;
      tick_id = f.tick_id;
      category = from_fb_category f.category;
      region_id = f.region_id;
      fields = or_empty f.fields;
    }
