-- ===== src/Safety/StateMachine/Progress.antt =====
-- A suspended robot does resume: the other direction of the SR-3.3 interlock.
use robotele.Prelude.{ℕ, ◌-◌, ◌≤◌, ◌<◌, ◌≡◌, ◌⊎◌, true, false, none, some, List, [], ◌∷◌, arith}
use robotele.Safety.Tiers.{
  TaskClass, tier_for_latency, resume_stability_window, class_b, class_c, class_d, class_e,
}
use robotele.Safety.StateMachine.{
  SafetyStateMachine, request_deadman_reset, on_rtt_sample, resume_ceiling,
}
use robotele.Safety.StateMachine.Invariant.{Event, sample, reset_request, replay}

-- Every sample of a history is below the ceiling.
abbrev pub AllBelow : ℕ → List Event → Type 0
AllBelow ceiling [] = Unit {0}
AllBelow ceiling (sample rtt now ∷ es) = (rtt < ceiling) × AllBelow ceiling es
AllBelow ceiling (reset_request ∷ es) = AllBelow ceiling es

-- Below the resume ceiling a latency is of tier 0.
tier_for_latency-below_ceiling :
    (c : TaskClass) (rtt : ℕ) → rtt < resume_ceiling c → tier_for_latency c rtt ≡ 0
unfolding tier_for_latency resume_ceiling
tier_for_latency-below_ceiling class_b rtt h = ground arith
tier_for_latency-below_ceiling class_c rtt h = ground arith
tier_for_latency-below_ceiling class_d rtt h = ground arith
tier_for_latency-below_ceiling class_e rtt h = ground arith

-- Still counting from `start` with the reset asked for, or resumed at tier 0.
record Settling (c : TaskClass) (start : ℕ) (m : SafetyStateMachine) : Type 0 where
  same_class : m.task_class ≡ c
  progress :
      ((m.suspended ≡ true) × (m.stable_since ≡ some start) × (m.deadman_reset_requested ≡ true))
      ⊎ ((m.suspended ≡ false) × (m.tier ≡ 0))

sample-Settling :
    (c : TaskClass) (start : ℕ) (m : SafetyStateMachine) (rtt now : ℕ)
    → rtt < resume_ceiling c
    → Settling c start m
    → Settling c start (on_rtt_sample m rtt now)
unfolding on_rtt_sample
sample-Settling c start m rtt now below v =
    ground
      (arith, tier_for_latency-below_ceiling c rtt, tier_for_latency-below_ceiling m.task_class rtt)

reset-Settling :
    (c : TaskClass) (start : ℕ) (m : SafetyStateMachine)
    → Settling c start m
    → Settling c start (request_deadman_reset m)
unfolding request_deadman_reset
reset-Settling c start m v = ground arith

replay-Settling :
    (c : TaskClass) (start : ℕ) (m : SafetyStateMachine) (es : List Event)
    → AllBelow (resume_ceiling c) es
    → Settling c start m
    → Settling c start (replay m es)
unfolding replay
replay-Settling c start m [] below v = v
replay-Settling c start m (sample rtt now ∷ es) below v =
    sample-Settling c start _ rtt now below.0 (replay-Settling c start m es below.1 v)
replay-Settling c start m (reset_request ∷ es) below v =
    reset-Settling c start _ (replay-Settling c start m es below v)

sample_ends :
    (c : TaskClass) (start : ℕ) (m : SafetyStateMachine) (rtt now : ℕ)
    → rtt < resume_ceiling c
    → resume_stability_window ≤ now - start
    → Settling c start m
    → ((on_rtt_sample m rtt now).suspended ≡ false) × ((on_rtt_sample m rtt now).tier ≡ 0)
unfolding on_rtt_sample
sample_ends c start m rtt now below window v =
    ground
      (arith, tier_for_latency-below_ceiling c rtt, tier_for_latency-below_ceiling m.task_class rtt)

counting :
    (m : SafetyStateMachine) (rtt now : ℕ)
    → m.suspended ≡ true
    → m.deadman_reset_requested ≡ true
    → m.stable_since ≡ none
    → rtt < resume_ceiling m.task_class
    → Settling m.task_class now (on_rtt_sample m rtt now)
unfolding on_rtt_sample
counting m rtt now s r t below = ground arith

-- A suspended robot whose reset has been asked for, and which times no stretch yet, resumes at tier 0
-- once samples from `start` to `now`, at least the stability window (2 s) apart, are all below the
-- resume ceiling, whatever resets are asked for between.
pub calm_resumes :
    (m : SafetyStateMachine) (rtt start : ℕ) (es : List Event) (rtt' now : ℕ)
    → m.suspended ≡ true
    → m.deadman_reset_requested ≡ true
    → m.stable_since ≡ none
    → rtt < resume_ceiling m.task_class
    → AllBelow (resume_ceiling m.task_class) (sample rtt' now ∷ es)
    → resume_stability_window ≤ now - start
    → let m' = replay (on_rtt_sample m rtt start) (sample rtt' now ∷ es) in
      (m'.suspended ≡ false) × (m'.tier ≡ 0)
unfolding replay
calm_resumes m rtt start es rtt' now s r t below rest window =
    sample_ends m.task_class start _ rtt' now rest.0 window
      (replay-Settling m.task_class start _ es rest.1 (counting m rtt start s r t below))
