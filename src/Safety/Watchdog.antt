-- ===== src/Safety/Watchdog.antt =====
-- crates/roboprotocol-core/src/safety/watchdog.rs: the blackout watchdog.
-- An `Instant` is a number of nanoseconds; `duration_since` stops at zero, as `-` does.
pub mod Trips
use robotele.Prelude.{ℕ, ◌-◌, Bool, true, false, List, [], ◌∷◌, ◌++◌, leb, if◌then◌else◌}
use robotele.Safety.Tiers.{TaskClass, watchdog_blackout}

pub record WatchdogTrigger : Type 0 where
  pub at : ℕ
  pub blackout : ℕ

pub record Watchdog : Type 0 where
  pub threshold : ℕ
  pub last_heartbeat : ℕ
  pub triggered : Bool
  pub trigger_events : List WatchdogTrigger

unfoldable pub with_threshold : ℕ → ℕ → Watchdog
with_threshold threshold now = record {
  threshold = threshold;
  last_heartbeat = now;
  triggered = false;
  trigger_events = [];
}

unfoldable pub new : TaskClass → ℕ → Watchdog
unfolding with_threshold watchdog_blackout
new task_class now = with_threshold (watchdog_blackout task_class) now

-- `is_triggered` is the field `triggered`.
unfoldable pub heartbeat : Watchdog → ℕ → Watchdog
heartbeat w now = record w { last_heartbeat = now }

-- The new state, and whether this call trips the watchdog.
unfoldable pub check : Watchdog → ℕ → Watchdog × Bool
check w now =
    let blackout = now - w.last_heartbeat in
    if w.triggered
    then (w, false)
    else if leb w.threshold blackout
    then (
      record w {
        triggered = true;
        trigger_events = w.trigger_events ++ record { at = now; blackout = blackout } ∷ [];
      },
      true,
    )
    else (w, false)

unfoldable pub clear : Watchdog → ℕ → Watchdog
clear w now = record w { triggered = false; last_heartbeat = now }
