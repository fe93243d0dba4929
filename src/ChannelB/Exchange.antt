-- ===== src/ChannelB/Exchange.antt =====
-- crates/robot-edge/src/channel_b.rs and crates/operator-console/src/channel_b.rs: what one side
-- reads of what the other wrote.
use mathlib.Core.List.{append_assoc, append-nil}
use robotele.Prelude.{
  ℕ, ◌+◌, ◌-◌, ◌*◌, ◌%◌, ◌<◌, ◌≡◌, ap, sym, ◌∙◌, true, false, not, ◌||◌, ◌==◌, some, List, [], ◌∷◌,
  ◌++◌, map, arith, ltb, leb, length, length-append, take-append, drop-append,
}
use robotele.Prelude.Bytes.{to_be_bytes, from_be_bytes-to_be_bytes, length-to_be_bytes}
use robotele.Bulk.Grid.{ℤ}
use robotele.Layout.Sizing.{standard}
use robotele.Sensor.Float.{to_u16, as_i16, is_i16, as_i16-to_u16, to_u16-lt}
use robotele.Sensor.Interleave.{chunks_exact}
use robotele.Sensor.Interleave.Elements.{chunks_exact-append, chunks_exact-nil}
use robotele.ChannelB.Fields.{FieldFloat, on_wire}
use robotele.ChannelB.Shapes.{
  VelocityAttitudeCommand, CartesianCommand, pack_velocity_standard, unpack_velocity_standard,
  pack_cartesian_standard, unpack_cartesian_standard, pack_velocity, pack_cartesian,
  unpack_velocity, unpack_cartesian,
}
use robotele.ChannelB.Shapes.Unpacked.{
  velocity_on_wire, cartesian_on_wire, length-pack_velocity, length-pack_cartesian,
  unpack-pack_velocity, unpack-pack_cartesian,
}
use robotele.ChannelB.Robot
use robotele.ChannelB.Robot.{get_range, angle_bytes, motor_bytes}
use robotele.ChannelB.Operator

-- The parts of some bytes that starts with them.
get_range-first : (a rest : List ℕ) (n : ℕ) → length a ≡ n → get_range 0 n (a ++ rest) ≡ some a
get_range-first a rest n h =
    let enough : leb n (length (a ++ rest)) ≡ true = grind (arith, length-append a rest) in
    let from_start : n - 0 ≡ length a = omega (arith, h) in
    rw (enough, from_start) (ap some (take-append a rest))

get_range-second :
    (a b rest : List ℕ) (n m : ℕ)
    → length a ≡ n
    → length b ≡ m
    → get_range n (n + m) (a ++ (b ++ rest)) ≡ some b
get_range-second a b rest n m ha hb =
    let enough : leb (n + m) (length (a ++ (b ++ rest))) ≡ true =
      grind (arith, length-append a (b ++ rest), length-append b rest) in
    let width : n + m - n ≡ length b = omega (arith, hb) in
    rw (enough, width, ← ha, drop-append a (b ++ rest), take-append b rest)

module _ (float : FieldFloat) where
  open float use {
    F, one_float, hundred, mul, div, round_i16, cast_i16, of_int, round_i16_fits, round_whole,
    cast_whole,
  }

  -- The operator's command as the robot has it: the velocities and the attitude rounded to
  -- hundredths, the arm and the claw as they were sent.
  abbrev pub arriving : Operator.TeleopCommand float → Robot.TeleopCommand float
  arriving c = record {
    vx = on_wire float c.vx hundred standard;
    vy = on_wire float c.vy hundred standard;
    turn = on_wire float c.turn hundred standard;
    attitude_r = on_wire float c.attitude_r hundred standard;
    attitude_p = on_wire float c.attitude_p hundred standard;
    attitude_y = on_wire float c.attitude_y hundred standard;
    arm_x = c.arm_x;
    arm_z = c.arm_z;
    claw = c.claw;
  }

  velocity_alone :
      (c : VelocityAttitudeCommand float)
      → unpack_velocity_standard float (pack_velocity_standard float c)
        ≡ some (velocity_on_wire float c standard)
  unfolding unpack_velocity_standard pack_velocity_standard
  velocity_alone c =
      ap (λ bytes. unpack_velocity float bytes standard)
        (sym (append-nil (pack_velocity float c standard)))
      ∙ unpack-pack_velocity float c standard []

  cartesian_alone :
      (c : CartesianCommand float)
      → c.gripper < 256
      → unpack_cartesian_standard float (pack_cartesian_standard float c)
        ≡ some (cartesian_on_wire float c standard)
  unfolding unpack_cartesian_standard pack_cartesian_standard
  cartesian_alone c h =
      ap (λ bytes. unpack_cartesian float bytes standard)
        (sym (append-nil (pack_cartesian float c standard)))
      ∙ unpack-pack_cartesian float c standard [] h

  length-velocity :
      (c : VelocityAttitudeCommand float) → length (pack_velocity_standard float c) ≡ 12
  unfolding pack_velocity_standard
  length-velocity c = length-pack_velocity float c standard ∙ omega arith

  length-cartesian : (c : CartesianCommand float) → length (pack_cartesian_standard float c) ≡ 8
  unfolding pack_cartesian_standard
  length-cartesian c = length-pack_cartesian float c standard ∙ omega arith

  -- A whole number of millimetres is kept.
  millimetres :
      (q : ℤ) → is_i16 q ≡ true → cast_i16 (on_wire float (of_int q) one_float standard) ≡ q
  unfolding on_wire
  millimetres q h = ap (λ r. cast_i16 (div (of_int r) one_float)) (round_whole q h) ∙ cast_whole q h

  -- The robot reads an operator's command, whatever bytes follow it, with the velocities and the
  -- attitude rounded to hundredths and with the arm's position and the claw exactly as they were,
  -- if these are in the ranges of their types.
  pub unpack-pack_command :
      (c : Operator.TeleopCommand float) (rest : List ℕ)
      → is_i16 c.arm_x ≡ true
      → is_i16 c.arm_z ≡ true
      → c.claw < 256
      → Robot.unpack_command float (Operator.pack_command float c ++ rest) ≡ some (arriving c)
  unfolding Robot.unpack_command Operator.pack_command
  unpack-pack_command c rest hx hz hc =
      let va : VelocityAttitudeCommand float = Operator.velocity_attitude float c in
      let arm : CartesianCommand float = Operator.arm float c in
      let first : List ℕ = pack_velocity_standard float va in
      let second : List ℕ = pack_cartesian_standard float arm in
      rw (
        append_assoc first second rest,
        get_range-first first (second ++ rest) 12 (length-velocity va),
        velocity_alone va,
        get_range-second first second rest 12 8 (length-velocity va) (length-cartesian arm),
        cartesian_alone arm hc,
        millimetres c.arm_x hx,
        millimetres c.arm_z hz,
      )

  -- An angle as the operator reads it, in hundredths of a degree.
  abbrev pub angle : F → F
  angle v = on_wire float v hundred standard

  length-angle_bytes : (v : F) → length (angle_bytes float v) ≡ 2
  unfolding angle_bytes
  length-angle_bytes v = length-to_be_bytes 2 (to_u16 (round_i16 (mul v hundred)))

  angle_at_lem : (v : F) → Operator.angle_at float (angle_bytes float v) ≡ angle v
  unfolding angle_bytes on_wire
  angle_at_lem v =
      let q : ℤ = round_i16 (mul v hundred) in
      let fits : is_i16 q ≡ true = round_i16_fits (mul v hundred) in
      ap (λ n. div (of_int (as_i16 n)) hundred)
        (from_be_bytes-to_be_bytes 2 (to_u16 q) (to_u16-lt q fits))
      ∙ ap (λ r. div (of_int r) hundred) (as_i16-to_u16 q fits)

  length-motor_bytes : (motors : List F) → length (motor_bytes float motors) ≡ 2 * length motors
  unfolding motor_bytes
  length-motor_bytes [] = omega arith
  length-motor_bytes (m ∷ motors) = grind (
    arith,
    length-append (angle_bytes float m) (motor_bytes float motors),
    length-angle_bytes m,
    length-motor_bytes motors,
  )

  motors_lem :
      (motors : List F)
      → map (Operator.angle_at float) (chunks_exact 2 (motor_bytes float motors)) ≡ map angle motors
  unfolding motor_bytes
  motors_lem [] = ap (map (Operator.angle_at float)) (chunks_exact-nil 2)
  motors_lem (m ∷ motors) = rw (
    chunks_exact-append 2 (angle_bytes float m) (motor_bytes float motors) (omega arith)
        (length-angle_bytes m),
    angle_at_lem m,
    motors_lem motors,
  )

  abbrev pub reported : Robot.TelemetryData float → Operator.TelemetryData float
  reported t = record {
    battery = t.battery;
    roll = angle t.roll;
    pitch = angle t.pitch;
    yaw = angle t.yaw;
    motors = map angle t.motors;
  }

  length-pack_telemetry :
      (t : Robot.TelemetryData float)
      → length (Robot.pack_telemetry float t) ≡ 7 + 2 * length t.motors
  unfolding Robot.pack_telemetry
  length-pack_telemetry t =
      let last : List ℕ = angle_bytes float t.yaw ++ motor_bytes float t.motors in
      grind (
        arith,
        length-append (angle_bytes float t.roll) (angle_bytes float t.pitch ++ last),
        length-append (angle_bytes float t.pitch) last,
        length-append (angle_bytes float t.yaw) (motor_bytes float t.motors),
        length-angle_bytes t.roll,
        length-angle_bytes t.pitch,
        length-angle_bytes t.yaw,
        length-motor_bytes t.motors,
      )

  well_sized : (n : ℕ) → (ltb (7 + 2 * n) 7 || not ((7 + 2 * n - 7) % 2 == 0)) ≡ false
  well_sized n = ground arith

  -- The operator reads the robot's telemetry for any number of motors: the battery as it is, and
  -- each angle, those of the motors in their order, rounded to hundredths of a degree.
  pub unpack-pack_telemetry :
      (t : Robot.TelemetryData float)
      → Operator.unpack_telemetry float (Robot.pack_telemetry float t) ≡ some (reported t)
  unfolding Operator.unpack_telemetry Robot.pack_telemetry angle_bytes to_be_bytes
  unpack-pack_telemetry t = rw (
    length-pack_telemetry t,
    well_sized (length t.motors),
    angle_at_lem t.roll,
    angle_at_lem t.pitch,
    angle_at_lem t.yaw,
    motors_lem t.motors,
  )
