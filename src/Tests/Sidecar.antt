-- ===== src/Tests/Sidecar.antt =====
-- The theorems on the sidecar at concrete inputs: a float is its bits, without a sign.
use robotele.Prelude.{ℕ, ◌≡◌, refl, true, List, [], ◌∷◌, arith, ltb}
use robotele.Bulk.Grid.{pos, negsuc}
use robotele.Safety.Tiers.{class_d, watchdog_blackout}
use robotele.Safety.Arbitration.{arbitrate, full_teleoperation, semi_autonomous}
use robotele.Safety.Task
use robotele.Safety.StateMachine
use robotele.Safety.Task.{SafetyTask, tick}
use robotele.Safety.Watchdog
use robotele.Sidecar.Goal.{Velocities, asserted}
use robotele.Sidecar.Goal.Expires.{heard, IsFresh, autonomy_expires}
use robotele.Sidecar.Command.{TeleopCommand}
use robotele.Sidecar.Command.Current.{Call, published, received}

abbrev bits : Velocities
bits = record {
  F = ℕ;
  zero_float = 0;
  from_bits = λ n. n;
  is_finite = λ v. true;
  lt = ltb;
  neg = λ v. 0;
  max_vx = 15;
  max_vy = 12;
  max_turn = 60;
}

-- A sample one second after the start.
abbrev one_sample : List (ℕ × List ℕ)
one_sample = (1_000_000_000, 0 ∷ 0 ∷ 0 ∷ 99 ∷ 0 ∷ 0 ∷ 0 ∷ 5 ∷ 0 ∷ 0 ∷ 0 ∷ 6 ∷ []) ∷ []

abbrev still_command : TeleopCommand
still_command = record {
  vx = 0;
  vy = 0;
  turn = 0;
  attitude_r = 0;
  attitude_p = 0;
  attitude_y = 0;
  arm_x = pos 10;
  arm_z = negsuc 19;
  claw = 128;
}

abbrev earlier : List Call
earlier = received ∷ published 0 full_teleoperation still_command ∷ []

-- A task that nobody drives.
abbrev idle : SafetyTask
idle = Task.new class_d 1_000_000_000

autonomy_drives :
    (tick idle 1_100_000_000 (asserted bits (heard bits 0 one_sample) 1_100_000_000)).1
    ≡ semi_autonomous
unfolding Task.new tick heard asserted Watchdog.check Watchdog.with_threshold arbitrate
    watchdog_blackout StateMachine.new
autonomy_drives = refl

autonomy_expires_example : IsFresh bits 0 1_100_000_000 one_sample
autonomy_expires_example =
    autonomy_expires bits idle 0 1_100_000_000 one_sample (omega arith, tt) autonomy_drives
