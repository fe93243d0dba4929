-- ===== src/ChannelB/Operator.antt =====
-- crates/operator-console/src/channel_b.rs: the same command and telemetry on the operator's side.
use robotele.Prelude.{
  ℕ, ◌-◌, ◌%◌, not, ◌||◌, Option, none, some, List, ◌++◌, map, ltb, ◌==◌, if◌then◌else◌, length,
  drop, get_or,
}
use robotele.Prelude.Chain.{◌>>=◌}
use robotele.Prelude.Bytes.{from_be_bytes, slice}
use robotele.Bulk.Grid.{ℤ}
use robotele.Sensor.Float.{as_i16}
use robotele.Sensor.Interleave.{chunks_exact}
use robotele.ChannelB.Fields.{FieldFloat}
use robotele.ChannelB.Shapes.{
  VelocityAttitudeCommand, CartesianCommand, pack_velocity_standard, unpack_velocity_standard,
  pack_cartesian_standard, unpack_cartesian_standard,
}
use robotele.ChannelB.Robot.{get_range}

abbrev pub telemetry_header_len : ℕ
telemetry_header_len = 7

module _ (float : FieldFloat) where
  open float use {F, zero_float, hundred, mul, div, round_i16, cast_i16, of_int}

  pub record TeleopCommand : Type 0 where
    pub vx : F
    pub vy : F
    pub turn : F
    pub attitude_r : F
    pub attitude_p : F
    pub attitude_y : F
    pub arm_x : ℤ  -- i16
    pub arm_z : ℤ  -- i16
    pub claw : ℕ  -- u8

  abbrev pub velocity_attitude : TeleopCommand → VelocityAttitudeCommand float
  velocity_attitude c = record {
    vx = c.vx;
    vy = c.vy;
    turn = c.turn;
    roll = c.attitude_r;
    pitch = c.attitude_p;
    yaw = c.attitude_y;
  }

  abbrev pub arm : TeleopCommand → CartesianCommand float
  arm c = record { x = of_int c.arm_x; y = zero_float; z = of_int c.arm_z; gripper = c.claw }

  unfoldable pub pack_command : TeleopCommand → List ℕ
  unfolding pack_velocity_standard pack_cartesian_standard
  pack_command c =
      pack_velocity_standard float (velocity_attitude c) ++ pack_cartesian_standard float (arm c)

  unfoldable pub unpack_command : List ℕ → Option TeleopCommand
  unfolding unpack_velocity_standard unpack_cartesian_standard
  unpack_command bytes = do
    va_bytes ← get_range 0 12 bytes
    va ← unpack_velocity_standard float va_bytes
    arm_bytes ← get_range 12 20 bytes
    arm_command ← unpack_cartesian_standard float arm_bytes
    some (record {
      vx = va.vx;
      vy = va.vy;
      turn = va.turn;
      attitude_r = va.roll;
      attitude_p = va.pitch;
      attitude_y = va.yaw;
      arm_x = cast_i16 arm_command.x;
      arm_z = cast_i16 arm_command.z;
      claw = arm_command.gripper;
    })

  pub record TelemetryData : Type 0 where
    pub battery : ℕ  -- u8
    pub roll : F
    pub pitch : F
    pub yaw : F
    pub motors : List F

  abbrev pub angle_at : List ℕ → F
  angle_at c = div (of_int (as_i16 (from_be_bytes c))) hundred

  unfoldable pub unpack_telemetry : List ℕ → Option TelemetryData
  unpack_telemetry bytes =
      if ltb (length bytes) telemetry_header_len
        || not ((length bytes - telemetry_header_len) % 2 == 0)
      then none
      else some (record {
        battery = get_or bytes 0 0;
        roll = angle_at (slice 1 3 bytes);
        pitch = angle_at (slice 3 5 bytes);
        yaw = angle_at (slice 5 7 bytes);
        motors = map angle_at (chunks_exact 2 (drop telemetry_header_len bytes));
      })
