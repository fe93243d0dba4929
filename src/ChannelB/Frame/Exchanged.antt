-- ===== src/ChannelB/Frame/Exchanged.antt =====
-- crates/robot-edge/src/channel_b.rs and crates/operator-console/src/channel_b.rs: a frame on its way
-- to the robot and the telemetry in one.
use robotele.Prelude.{◌<◌, ◌≡◌, ap, sym, ◌∙◌, true, some, [], refl}
use mathlib.Core.List.{append-nil}
use robotele.ChannelB.Frame.{FlatBuffers}
use robotele.ChannelB.Frame.Robot
use robotele.ChannelB.Frame.Operator
use robotele.ChannelB.Fields.{FieldFloat}
use robotele.ChannelB.Robot.{unpack_command}
use robotele.ChannelB.Operator.{TeleopCommand, pack_command}
use robotele.ChannelB.Exchange.{arriving, unpack-pack_command}
use robotele.Sensor.Float.{is_i16}

abbrev pub robot_category : Operator.ChannelBCategory → Robot.ChannelBCategory
robot_category Operator.command = Robot.command
robot_category Operator.telemetry = Robot.telemetry
robot_category Operator.haptic = Robot.haptic

category_kept :
    (c : Operator.ChannelBCategory)
    → Robot.from_fb_category (Operator.to_fb_category c) ≡ robot_category c
category_kept Operator.command = refl
category_kept Operator.telemetry = refl
category_kept Operator.haptic = refl

abbrev pub received : Operator.ChannelBFrameData → Robot.ChannelBFrameData
received f = record {
  timestamp = f.timestamp;
  seq = f.seq;
  tick_id = f.tick_id;
  category = robot_category f.category;
  region_id = f.region_id;
  fields = f.fields;
}

-- The robot reads the frame that the operator wrote.
pub decode-encode_frame :
    (fb : FlatBuffers) (f : Operator.ChannelBFrameData)
    → Robot.decode_channel_b_frame fb (Operator.encode_channel_b_frame fb f) ≡ received f
unfolding Robot.decode_channel_b_frame Operator.encode_channel_b_frame
decode-encode_frame fb f =
    rw
      (fb.get_root-finished_data (record {
        timestamp = f.timestamp;
        seq = f.seq;
        tick_id = f.tick_id;
        category = Operator.to_fb_category f.category;
        region_id = f.region_id;
        fields = some f.fields;
      }))
      (ap (λ c. record (received f) { category = c }) (category_kept f.category))

module _ (float : FieldFloat) where
  -- The robot reads a frame whose fields are a packed command as that command, rounded to
  -- hundredths, with the frame's sequence number and time.
  pub command_received :
      (fb : FlatBuffers) (f : Operator.ChannelBFrameData) (c : TeleopCommand float)
      → f.fields ≡ pack_command float c
      → is_i16 c.arm_x ≡ true
      → is_i16 c.arm_z ≡ true
      → c.claw < 256
      → unpack_command float
          (Robot.decode_channel_b_frame fb (Operator.encode_channel_b_frame fb f)).fields
        ≡ some (arriving float c)
  command_received fb f c h hx hz hc =
      ap (λ g. unpack_command float g.fields) (decode-encode_frame fb f)
      ∙ ap (unpack_command float) (h ∙ sym (append-nil (pack_command float c)))
      ∙ unpack-pack_command float c [] hx hz hc
