-- ===== src/ChannelB/Robot.antt =====
-- crates/robot-edge/src/channel_b.rs: the operator's command and the robot's telemetry on the robot.
use robotele.Prelude.{
  ℕ, ◌+◌, ◌-◌, ◌%◌, not, ◌||◌, Option, none, some, List, [], ◌∷◌, ◌++◌, map, ltb, leb, ◌==◌,
  if◌then◌else◌, length, drop, get_or,
}
use robotele.Prelude.Chain.{◌>>=◌}
use robotele.Prelude.Bytes.{to_be_bytes, from_be_bytes, slice}
use robotele.Bulk.Grid.{ℤ}
use robotele.Sensor.Float.{to_u16, as_i16}
use robotele.Sensor.Interleave.{chunks_exact}
use robotele.ChannelB.Fields.{FieldFloat}
use robotele.ChannelB.Shapes.{
  VelocityAttitudeCommand, CartesianCommand, pack_velocity_standard, unpack_velocity_standard,
  pack_cartesian_standard, unpack_cartesian_standard,
}

abbrev pub velocity_attitude_standard_len : ℕ
velocity_attitude_standard_len = 12

abbrev pub cartesian_standard_len : ℕ
cartesian_standard_len = 8

abbrev pub telemetry_header_len : ℕ
telemetry_header_len = 7

-- `bytes.get(from..to)`
abbrev pub get_range : ℕ → ℕ → List ℕ → Option (List ℕ)
get_range from to bytes = if leb to (length bytes) then some (slice from to bytes) else none

module _ (float : FieldFloat) where
  open float use {F, zero_float, hundred, mul, div, round_i16, cast_i16, of_int}

  pub record TeleopCommand : Type 0 where
    pub vx : F
    pub vy : F
    pub turn : F
    pub attitude_r : F
    pub attitude_p : F
    pub attitude_y : F
    pub arm_x : ℤ  -- i16
    pub arm_z : ℤ  -- i16
    pub claw : ℕ  -- u8

  abbrev pub velocity_attitude : TeleopCommand → VelocityAttitudeCommand float
  velocity_attitude c = record {
    vx = c.vx;
    vy = c.vy;
    turn = c.turn;
    roll = c.attitude_r;
    pitch = c.attitude_p;
    yaw = c.attitude_y;
  }

  abbrev pub arm : TeleopCommand → CartesianCommand float
  arm c = record { x = of_int c.arm_x; y = zero_float; z = of_int c.arm_z; gripper = c.claw }

  unfoldable pub pack_command : TeleopCommand → List ℕ
  unfolding pack_velocity_standard pack_cartesian_standard
  pack_command c =
      pack_velocity_standard float (velocity_attitude c) ++ pack_cartesian_standard float (arm c)

  unfoldable pub unpack_command : List ℕ → Option TeleopCommand
  unfolding unpack_velocity_standard unpack_cartesian_standard
  unpack_command bytes = do
    va_bytes ← get_range 0 velocity_attitude_standard_len bytes
    va ← unpack_velocity_standard float va_bytes
    arm_bytes ←
        get_range velocity_attitude_standard_len
          (velocity_attitude_standard_len + cartesian_standard_len) bytes
    arm_command ← unpack_cartesian_standard float arm_bytes
    some (record {
      vx = va.vx;
      vy = va.vy;
      turn = va.turn;
      attitude_r = va.roll;
      attitude_p = va.pitch;
      attitude_y = va.yaw;
      arm_x = cast_i16 arm_command.x;
      arm_z = cast_i16 arm_command.z;
      claw = arm_command.gripper;
    })

  pub record TelemetryData : Type 0 where
    pub battery : ℕ  -- u8
    pub roll : F
    pub pitch : F
    pub yaw : F
    pub motors : List F

  -- `((v * 100.0).round() as i16).to_be_bytes()`
  unfoldable pub angle_bytes : F → List ℕ
  unfolding to_be_bytes to_u16
  angle_bytes v = to_be_bytes 2 (to_u16 (round_i16 (mul v hundred)))

  unfoldable pub motor_bytes : List F → List ℕ
  motor_bytes [] = []
  motor_bytes (m ∷ motors) = angle_bytes m ++ motor_bytes motors

  unfoldable pub pack_telemetry : TelemetryData → List ℕ
  pack_telemetry t =
      t.battery ∷ angle_bytes t.roll
      ++ (angle_bytes t.pitch ++ (angle_bytes t.yaw ++ motor_bytes t.motors))

  abbrev pub angle_at : List ℕ → F
  angle_at c = div (of_int (as_i16 (from_be_bytes c))) hundred

  unfoldable pub unpack_telemetry : List ℕ → Option TelemetryData
  unpack_telemetry bytes =
      if ltb (length bytes) telemetry_header_len
        || not ((length bytes - telemetry_header_len) % 2 == 0)
      then none
      else some (record {
        battery = get_or bytes 0 0;
        roll = angle_at (slice 1 3 bytes);
        pitch = angle_at (slice 3 5 bytes);
        yaw = angle_at (slice 5 7 bytes);
        motors = map angle_at (chunks_exact 2 (drop telemetry_header_len bytes));
      })
