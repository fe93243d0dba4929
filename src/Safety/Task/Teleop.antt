-- ===== src/Safety/Task/Teleop.antt =====
-- When a tick of safety_task.rs lets the operator or the autonomy drive.
use robotele.Prelude.{ℕ, ◌-◌, ◌≤◌, ◌<◌, ◌≡◌, ◌≢◌, ◌↔◌, ◌⊎◌, Bool, true, false, ◌&&◌, arith}
use robotele.Safety.Watchdog
use robotele.Safety.Arbitration.{
  emergency_safe_parking, full_teleoperation, semi_autonomous, arbitrate,
}
use robotele.Safety.Task.{SafetyTask, tick}

-- A tick hands the robot to the operator exactly when nobody pressed the E-Stop, the watchdog is not
-- latched and the last datagram is less than its threshold ago, the deadman is held, the command is
-- fresh, and the machine is neither suspended nor above tier 3.
pub full_teleoperation_iff :
    (t : SafetyTask) (now : ℕ) (goal : Bool)
    → ((tick t now goal).1 ≡ full_teleoperation) ↔ (
        (t.explicit_estop ≡ false)
        × (t.watchdog.triggered ≡ false)
        × (now - t.watchdog.last_heartbeat < t.watchdog.threshold)
        × (t.deadman_held ≡ true)
        × (t.command_fresh ≡ true)
        × (t.state_machine.suspended ≡ false)
        × (t.state_machine.tier ≤ 3))
unfolding tick Watchdog.check arbitrate
full_teleoperation_iff t now goal = (λ h. ground arith, λ h. ground arith)

-- Autonomy drives exactly if its goal is asserted, the robot is neither stopped nor suspended nor due
-- to be stopped for silence, and the operator is not driving: without a deadman held and a fresh
-- command, or with a latency above tier 3; and no tick parks the robot.
pub semi_autonomous_only :
    (t : SafetyTask) (now : ℕ) (goal : Bool)
    → (((tick t now goal).1 ≡ semi_autonomous) ↔ (
        (goal ≡ true)
        × (t.explicit_estop ≡ false)
        × (t.watchdog.triggered ≡ false)
        × (now - t.watchdog.last_heartbeat < t.watchdog.threshold)
        × (t.state_machine.suspended ≡ false)
        × ((t.deadman_held && t.command_fresh ≡ false) ⊎ (3 < t.state_machine.tier))))
      × ((tick t now goal).1 ≢ emergency_safe_parking)
unfolding tick Watchdog.check arbitrate
semi_autonomous_only t now goal = ((λ h. ground arith, λ h. ground arith), λ h. ground arith)
