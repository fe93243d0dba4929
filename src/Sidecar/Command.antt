-- ===== src/Sidecar/Command.antt =====
-- crates/robot-edge/src/zenoh_bridge.rs: the operator's commands published again for monitors, and the
-- telemetry. A channel of depth one is what waits in it; an instant is a number of nanoseconds.
pub mod Current
use robotele.Prelude.{
  ℕ, ◌-◌, Bool, true, false, ◌&&◌, Option, none, some, List, [], ◌∷◌, ◌++◌, ltb, if◌then◌else◌,
}
use robotele.Prelude.Bytes.{to_be_bytes}
use robotele.Prelude.Assoc.{beq_list}
use robotele.Bulk.Grid.{ℤ}
use robotele.Safety.Arbitration.{ControlSource}
use robotele.Recording.Record.{control_source_byte}
use robotele.Sensor.Float.{to_u16}

abbrev pub command_repeat : ℕ
command_repeat = 250_000_000

-- The f32 fields are their 32 bits.
pub record TeleopCommand : Type 0 where
  pub vx : ℕ
  pub vy : ℕ
  pub turn : ℕ
  pub attitude_r : ℕ
  pub attitude_p : ℕ
  pub attitude_y : ℕ
  pub arm_x : ℤ  -- i16
  pub arm_z : ℤ  -- i16
  pub claw : ℕ  -- u8

unfoldable pub encode_command : ControlSource → TeleopCommand → List ℕ
unfolding control_source_byte to_be_bytes to_u16
encode_command source c =
    control_source_byte source ∷ to_be_bytes 4 c.vx
    ++ (to_be_bytes 4 c.vy
        ++ (to_be_bytes 4 c.turn
            ++ (to_be_bytes 4 c.attitude_r
                ++ (to_be_bytes 4 c.attitude_p
                    ++ (to_be_bytes 4 c.attitude_y
                        ++ (to_be_bytes 2 (to_u16 c.arm_x)
                            ++ (to_be_bytes 2 (to_u16 c.arm_z) ++ c.claw ∷ [])))))))

-- A sink, and what waits in its channel.
pub record CommandSink : Type 0 where
  pub queued : Option (List ℕ)
  pub last : Option (List ℕ × ℕ)

unfoldable pub new : CommandSink
new = record { queued = none; last = none }

-- `try_send`: the channel takes it if nothing waits.
unfoldable pub try_send : CommandSink → List ℕ → ℕ → CommandSink
try_send s payload now = elim s.queued [
  | none ↦ record { queued = some payload; last = some (payload, now) }
  | some waiting ↦ s
]

abbrev pub is_repeat : Option (List ℕ × ℕ) → List ℕ → ℕ → Bool
is_repeat none payload now = false
is_repeat (some (last, at)) payload now = beq_list last payload && ltb (now - at) command_repeat

unfoldable pub publish_at : CommandSink → ℕ → ControlSource → TeleopCommand → CommandSink
unfolding try_send encode_command
publish_at s now source cmd =
    if is_repeat s.last (encode_command source cmd) now
    then s
    else try_send s (encode_command source cmd) now

-- The publisher's task takes what waits.
unfoldable pub receive : CommandSink → CommandSink × Option (List ℕ)
receive s = (record s { queued = none }, s.queued)

-- `TelemetrySink::publish`: on a full channel the new sample is dropped.
unfoldable pub publish_telemetry {ℓ} : {A : Type ℓ} → Option A → A → Option A
publish_telemetry none sample = some sample
publish_telemetry (some waiting) sample = some waiting
