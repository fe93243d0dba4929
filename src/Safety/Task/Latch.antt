-- ===== src/Safety/Task/Latch.antt =====
-- The E-Stop latch of safety_task.rs (SR-4).
use robotele.Prelude.{ℕ, ◌-◌, ◌≤◌, ◌≡◌, refl, Bool, true, Option, List, [], ◌∷◌, arith}
use robotele.Safety.Watchdog
use robotele.Safety.Watchdog.{Watchdog}
use robotele.Safety.StateMachine
use robotele.Safety.Arbitration.{e_stop, arbitrate}
use robotele.Safety.Task.{
  SafetyTask, on_channel_b_activity, trigger_explicit_estop, clear_explicit_estop, is_estopped,
  tick,
}

-- All that happens to a safety task: its methods, and the writes of its public fields.
pub data Event : Type 0 where
  channel_b : Option ℕ → ℕ → Event
  estop_key : Event
  cleared : ℕ → Event
  ticked : ℕ → Bool → Event
  commanded : Bool → Bool → Event
  reset_request : Event

unfoldable pub step : SafetyTask → Event → SafetyTask
step t (channel_b rtt now) = on_channel_b_activity t rtt now
step t estop_key = trigger_explicit_estop t
step t (cleared now) = clear_explicit_estop t now
step t (ticked now goal) = (tick t now goal).0
step t (commanded deadman fresh) = record t { deadman_held = deadman; command_fresh = fresh }
step t reset_request = record t {
  state_machine = StateMachine.request_deadman_reset t.state_machine;
}

unfoldable pub run : SafetyTask → List Event → SafetyTask
run t [] = t
run t (e ∷ es) = run (step t e) es

abbrev pub NoClear : List Event → Type 0
NoClear [] = Unit {0}
NoClear (cleared now ∷ es) = ⊥
NoClear (channel_b rtt now ∷ es) = NoClear es
NoClear (estop_key ∷ es) = NoClear es
NoClear (ticked now goal ∷ es) = NoClear es
NoClear (commanded deadman fresh ∷ es) = NoClear es
NoClear (reset_request ∷ es) = NoClear es

step-latched :
    (t : SafetyTask) (e : Event)
    → NoClear (e ∷ [])
    → is_estopped t ≡ true
    → is_estopped (step t e) ≡ true
unfolding step is_estopped on_channel_b_activity trigger_explicit_estop tick Watchdog.check
    Watchdog.heartbeat
step-latched t (channel_b rtt now) n h = h
step-latched t estop_key n h = refl
step-latched t (cleared now) n h = elim n [ ]
step-latched t (ticked now goal) n h = ground arith
step-latched t (commanded deadman fresh) n h = h
step-latched t reset_request n h = h

run-latched :
    (t : SafetyTask) (es : List Event)
    → NoClear es
    → is_estopped t ≡ true
    → is_estopped (run t es) ≡ true
unfolding run
run-latched t [] n h = h
run-latched t (cleared now ∷ es) n h = elim n [ ]
run-latched t (channel_b rtt now ∷ es) n h =
    run-latched (step t (channel_b rtt now)) es n (step-latched t (channel_b rtt now) tt h)
run-latched t (estop_key ∷ es) n h =
    run-latched (step t estop_key) es n (step-latched t estop_key tt h)
run-latched t (ticked now goal ∷ es) n h =
    run-latched (step t (ticked now goal)) es n (step-latched t (ticked now goal) tt h)
run-latched t (commanded deadman fresh ∷ es) n h =
    run-latched (step t (commanded deadman fresh)) es n
      (step-latched t (commanded deadman fresh) tt h)
run-latched t (reset_request ∷ es) n h =
    run-latched (step t reset_request) es n (step-latched t reset_request tt h)

tick-estopped :
    (t : SafetyTask) (now : ℕ) (goal : Bool) → is_estopped t ≡ true → (tick t now goal).1 ≡ e_stop
unfolding tick is_estopped Watchdog.check arbitrate
tick-estopped t now goal h = ground arith

-- Once the robot is stopped, by the operator or by the watchdog, each later tick commands the E-Stop,
-- whatever datagrams, samples, commands, resets and ticks come between, until an explicit clear.
pub estop_latches :
    (t : SafetyTask) (es : List Event) (now : ℕ) (goal : Bool)
    → is_estopped t ≡ true
    → NoClear es
    → (tick (run t es) now goal).1 ≡ e_stop
estop_latches t es now goal h n = tick-estopped (run t es) now goal (run-latched t es n h)

blackout_trips :
    (t : SafetyTask) (now : ℕ) (goal : Bool)
    → t.watchdog.threshold ≤ now - t.watchdog.last_heartbeat
    → (is_estopped (tick t now goal).0 ≡ true) × ((tick t now goal).1 ≡ e_stop)
unfolding tick is_estopped Watchdog.check arbitrate
blackout_trips t now goal h = ground arith

-- A tick at least the watchdog's threshold after the last datagram commands the E-Stop, and so does
-- each later tick until an explicit clear, though datagrams arrive again.
pub blackout_latches :
    (t : SafetyTask) (now : ℕ) (goal : Bool) (es : List Event) (later : ℕ) (goal' : Bool)
    → t.watchdog.threshold ≤ now - t.watchdog.last_heartbeat
    → NoClear es
    → ((tick t now goal).1 ≡ e_stop) × ((tick (run (tick t now goal).0 es) later goal').1 ≡ e_stop)
blackout_latches t now goal es later goal' h n =
    let (latched, stopped) = blackout_trips t now goal h in
    (stopped, estop_latches (tick t now goal).0 es later goal' latched n)
