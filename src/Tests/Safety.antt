-- ===== src/Tests/Safety.antt =====
-- The theorems on the safety layer at concrete inputs.
use mathlib.Core.List.{Memᴰ}
use robotele.Prelude.{
  ℕ, ◌-◌, ◌≤◌, ◌<◌, ◌≡◌, ◌≢◌, ◌⊎◌, ◌↔◌, refl, true, false, ◌&&◌, none, some, List, [], ◌∷◌, arith,
}
use robotele.Safety.Tiers.{
  class_d, tier_for_latency, tier_for_latency_mono, ms, thresholds, resume_stability_window,
}
use robotele.Safety.Watchdog.{with_threshold}
use robotele.Safety.Watchdog
use robotele.Safety.Watchdog.Trips
use robotele.Safety.Watchdog.Trips.{beats, checks, clears}
use robotele.Safety.Arbitration.{
  ArbitrationInputs, arbitrate, e_stop, active_impedance_hold, full_teleoperation, semi_autonomous,
  emergency_safe_parking, ControlSource,
}
use robotele.Safety.Arbitration.Ladder.{admits, rank, arbitrate-first}
use robotele.Safety.StateMachine.{on_rtt_sample, resume_ceiling}
use robotele.Safety.StateMachine
use robotele.Safety.StateMachine.Invariant.{Inv, replay-Inv, replay, sample, reset_request}
use robotele.Safety.StateMachine.Resume.{CalmSince, resume_needs_calm}
use robotele.Safety.StateMachine.Progress.{calm_resumes}
use robotele.Safety.Task.{SafetyTask, tick, is_estopped, with_watchdog_threshold}
use robotele.Safety.Task.Latch.{run, channel_b, ticked, estop_latches, blackout_latches}
use robotele.Safety.Task.Teleop.{full_teleoperation_iff, semi_autonomous_only}

tiers_of_120_and_260_ms : tier_for_latency class_d (ms 120) ≤ tier_for_latency class_d (ms 260)
tiers_of_120_and_260_ms = tier_for_latency_mono class_d (ms 120) (ms 260) (omega arith)

abbrev watchdog_calls : List Trips.Call
watchdog_calls = checks (ms 950) ∷ clears (ms 700) ∷ checks (ms 700) ∷ checks (ms 600) ∷ []

two_trips : (Trips.replay (with_threshold (ms 200) 0) watchdog_calls).1 ≡ 2
unfolding Trips.replay with_threshold Watchdog.check Watchdog.clear
two_trips = refl

abbrev all_asserted : ArbitrationInputs
all_asserted = record {
  estop_latched = false;
  safe_parking_requested = false;
  suspended = true;
  resume_dwell_exceeded = false;
  teleop_ready = true;
  autonomy_goal_asserted = true;
}

arbitrate-first_example :
    ((s : ControlSource) → admits all_asserted s ≡ true → rank (arbitrate all_asserted) ≤ rank s)
    × ((admits all_asserted (arbitrate all_asserted) ≡ true)
        ⊎ (arbitrate all_asserted ≡ active_impedance_hold)
          × ((s : ControlSource) → admits all_asserted s ≡ false))
arbitrate-first_example = arbitrate-first all_asserted

replay-Inv_example : Inv (
    replay
      (StateMachine.new class_d 0)
      (sample (ms 10) (ms 900) ∷ reset_request ∷ sample (ms 600) (ms 100) ∷ []))
replay-Inv_example =
    replay-Inv class_d 0 (sample (ms 10) (ms 900) ∷ reset_request ∷ sample (ms 600) (ms 100) ∷ [])

abbrev suspended_then_calm : List StateMachine.Invariant.Event
suspended_then_calm = sample (ms 10) (ms 900) ∷ reset_request ∷ sample (ms 600) (ms 100) ∷ []

resume_needs_calm_example :
    Memᴰ reset_request suspended_then_calm
    × (t : ℕ) × CalmSince
        (resume_ceiling class_d)
        t
        (sample (ms 20) (ms 2900) ∷ suspended_then_calm)
    × (resume_stability_window ≤ ms 2900 - t)
unfolding replay StateMachine.new on_rtt_sample tier_for_latency thresholds
    StateMachine.request_deadman_reset resume_ceiling
resume_needs_calm_example =
    resume_needs_calm class_d 0 suspended_then_calm (ms 20) (ms 2900) refl refl

calm_resumes_example :
    let m = replay (StateMachine.new class_d 0) (reset_request ∷ sample (ms 600) (ms 100) ∷ []) in
    let m' =
      replay (on_rtt_sample m (ms 10) (ms 200)) (sample (ms 20) (ms 2200) ∷ reset_request ∷ []) in
    (m'.suspended ≡ false) × (m'.tier ≡ 0)
unfolding replay StateMachine.new on_rtt_sample tier_for_latency thresholds
    StateMachine.request_deadman_reset resume_ceiling
calm_resumes_example =
    calm_resumes
      (replay (StateMachine.new class_d 0) (reset_request ∷ sample (ms 600) (ms 100) ∷ [])) (ms 10)
      (ms 200) (reset_request ∷ []) (ms 20) (ms 2200) refl refl refl (omega arith) (omega arith)
      (omega arith)

-- The operator drives, with a 400 ms watchdog armed at 0.
abbrev driving : SafetyTask
unfolding with_watchdog_threshold StateMachine.new with_threshold
driving = record (with_watchdog_threshold class_d (ms 400) 0) {
  deadman_held = true;
  command_fresh = true;
}

stopped_by_key : is_estopped (record driving { explicit_estop = true }) ≡ true
unfolding driving is_estopped
stopped_by_key = refl

estop_latches_example :
    (tick
      (run (record driving { explicit_estop = true }) (channel_b (some 5) 10 ∷ ticked 20 true ∷ []))
      30
      true).1
    ≡ e_stop
estop_latches_example =
    estop_latches (record driving { explicit_estop = true })
      (channel_b (some 5) 10 ∷ ticked 20 true ∷ []) 30 true stopped_by_key tt

blackout_latches_example :
    ((tick driving (ms 400) false).1 ≡ e_stop)
    × ((tick (run (tick driving (ms 400) false).0 (channel_b none (ms 410) ∷ [])) (ms 420) false).1
        ≡ e_stop)
unfolding driving
blackout_latches_example =
    blackout_latches driving (ms 400) false (channel_b none (ms 410) ∷ []) (ms 420) false
      (omega arith) tt

full_teleoperation_iff_example : ((tick driving (ms 399) true).1 ≡ full_teleoperation) ↔ (
    (driving.explicit_estop ≡ false)
    × (driving.watchdog.triggered ≡ false)
    × (ms 399 - driving.watchdog.last_heartbeat < driving.watchdog.threshold)
    × (driving.deadman_held ≡ true)
    × (driving.command_fresh ≡ true)
    × (driving.state_machine.suspended ≡ false)
    × (driving.state_machine.tier ≤ 3))
full_teleoperation_iff_example = full_teleoperation_iff driving (ms 399) true

-- The operator has let go of the deadman.
abbrev let_go : SafetyTask
unfolding driving
let_go = record driving { deadman_held = false }

semi_autonomous_only_example :
    (((tick let_go (ms 399) true).1 ≡ semi_autonomous) ↔ (
      (true ≡ true)
      × (let_go.explicit_estop ≡ false)
      × (let_go.watchdog.triggered ≡ false)
      × (ms 399 - let_go.watchdog.last_heartbeat < let_go.watchdog.threshold)
      × (let_go.state_machine.suspended ≡ false)
      × ((let_go.deadman_held && let_go.command_fresh ≡ false) ⊎ (3 < let_go.state_machine.tier))))
    × ((tick let_go (ms 399) true).1 ≢ emergency_safe_parking)
semi_autonomous_only_example = semi_autonomous_only let_go (ms 399) true

autonomy_drives : (tick let_go (ms 399) true).1 ≡ semi_autonomous
unfolding tick let_go Watchdog.check arbitrate
autonomy_drives = refl
