-- ===== src/Safety/Task.antt =====
-- crates/robot-edge/src/safety_task.rs: the state machine, the watchdog and the ladder, each tick.
pub mod Latch
pub mod Teleop
use robotele.Prelude.{ℕ, Bool, true, false, ◌&&◌, ◌||◌, not, Option, none, some, leb}
use robotele.Safety.Tiers.{TaskClass, watchdog_blackout}
use robotele.Safety.Watchdog
use robotele.Safety.Watchdog.{Watchdog}
use robotele.Safety.StateMachine
use robotele.Safety.StateMachine.{SafetyStateMachine}
use robotele.Safety.Arbitration.{ControlSource, ArbitrationInputs, arbitrate}

pub record SafetyTask : Type 0 where
  pub state_machine : SafetyStateMachine
  pub watchdog : Watchdog
  pub explicit_estop : Bool
  pub deadman_held : Bool
  pub command_fresh : Bool

unfoldable pub with_watchdog_threshold : TaskClass → ℕ → ℕ → SafetyTask
with_watchdog_threshold task_class watchdog_threshold now = record {
  state_machine = StateMachine.new task_class now;
  watchdog = Watchdog.with_threshold watchdog_threshold now;
  explicit_estop = false;
  deadman_held = false;
  command_fresh = false;
}

unfoldable pub new : TaskClass → ℕ → SafetyTask
unfolding with_watchdog_threshold
new task_class now = with_watchdog_threshold task_class (watchdog_blackout task_class) now

-- A Channel B datagram, with its round-trip time if there is one.
abbrev pub sampled : SafetyStateMachine → Option ℕ → ℕ → SafetyStateMachine
sampled m none now = m
sampled m (some rtt) now = StateMachine.on_rtt_sample m rtt now

unfoldable pub on_channel_b_activity : SafetyTask → Option ℕ → ℕ → SafetyTask
on_channel_b_activity t rtt now = record t {
  watchdog = Watchdog.heartbeat t.watchdog now;
  state_machine = sampled t.state_machine rtt now;
}

unfoldable pub trigger_explicit_estop : SafetyTask → SafetyTask
trigger_explicit_estop t = record t { explicit_estop = true }

unfoldable pub clear_explicit_estop : SafetyTask → ℕ → SafetyTask
clear_explicit_estop t now = record t {
  explicit_estop = false;
  watchdog = Watchdog.clear t.watchdog now;
}

unfoldable pub is_estopped : SafetyTask → Bool
is_estopped t = t.explicit_estop || t.watchdog.triggered

-- What the ladder is given: parking and the dwell timer are not wired up.
unfoldable pub inputs : SafetyTask → Bool → ArbitrationInputs
unfolding is_estopped
inputs t autonomy_goal_asserted = record {
  estop_latched = is_estopped t;
  safe_parking_requested = false;
  suspended = m.suspended;
  resume_dwell_exceeded = false;
  teleop_ready = t.deadman_held && t.command_fresh && not m.suspended && leb m.tier 3;
  autonomy_goal_asserted = autonomy_goal_asserted;
}
  where
    m : SafetyStateMachine
    m = t.state_machine

unfoldable pub tick : SafetyTask → ℕ → Bool → SafetyTask × ControlSource
unfolding inputs
tick t now autonomy_goal_asserted =
    let t' = record t { watchdog = (Watchdog.check t.watchdog now).0 } in
    (t', arbitrate (inputs t' autonomy_goal_asserted))
