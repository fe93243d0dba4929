-- ===== src/Safety/StateMachine.antt =====
-- crates/roboprotocol-core/src/safety/state_machine.rs: tiers 0 to 4 with resume hysteresis.
pub mod Invariant
pub mod Resume
pub mod Progress
use robotele.Prelude.{
  ℕ, ◌-◌, Bool, true, false, ◌&&◌, Option, none, some, List, [], ◌∷◌, ◌++◌, leb, ◌==◌,
  if◌then◌else◌,
}
use robotele.Safety.Tiers.{
  TaskClass, thresholds, tier_for_latency, resume_hysteresis, resume_stability_window,
}

pub data TransitionTrigger : Type 0 where
  init latency resume : TransitionTrigger

pub record TierTransition : Type 0 where
  pub at : ℕ
  pub old_tier : ℕ
  pub new_tier : ℕ
  pub trigger : TransitionTrigger

pub record SafetyStateMachine : Type 0 where
  pub task_class : TaskClass
  pub tier : ℕ
  pub suspended : Bool
  pub deadman_reset_requested : Bool
  pub stable_since : Option ℕ
  pub transitions : List TierTransition

unfoldable pub new : TaskClass → ℕ → SafetyStateMachine
new task_class now = record {
  task_class = task_class;
  tier = 0;
  suspended = false;
  deadman_reset_requested = false;
  stable_since = none;
  transitions = record { at = now; old_tier = 0; new_tier = 0; trigger = init } ∷ [];
}

unfoldable pub request_deadman_reset : SafetyStateMachine → SafetyStateMachine
request_deadman_reset m = record m { deadman_reset_requested = true }

unfoldable pub transition : SafetyStateMachine → ℕ → TransitionTrigger → ℕ → SafetyStateMachine
transition m new_tier trigger now = record m {
  tier = new_tier;
  transitions =
      m.transitions
      ++ record { at = now; old_tier = m.tier; new_tier = new_tier; trigger = trigger } ∷ [];
}

-- The latency below which a suspended robot counts as stable.
unfoldable pub resume_ceiling : TaskClass → ℕ
unfolding thresholds
resume_ceiling task_class = (thresholds task_class).tier0_max - resume_hysteresis

-- `get_or_insert`: the start of the stable stretch.
abbrev pub since_or : Option ℕ → ℕ → ℕ
since_or none now = now
since_or (some t) now = t

unfoldable pub evaluate_resume : SafetyStateMachine → ℕ → ℕ → SafetyStateMachine
unfolding transition
evaluate_resume m rtt now =
    let since = since_or m.stable_since now in
    let counting = record m { stable_since = some since } in
    let resumed = record counting {
      suspended = false;
      deadman_reset_requested = false;
      stable_since = none;
    } in
    if leb (resume_ceiling m.task_class) rtt
    then record m { stable_since = none }
    else if leb resume_stability_window (now - since) && m.deadman_reset_requested
    then transition resumed 0 resume now
    else counting

unfoldable pub on_rtt_sample : SafetyStateMachine → ℕ → ℕ → SafetyStateMachine
unfolding evaluate_resume transition
on_rtt_sample m rtt now =
    let new_tier = tier_for_latency m.task_class rtt in
    let moved = if new_tier == m.tier then m else transition m new_tier latency now in
    if m.suspended
    then evaluate_resume m rtt now
    else if new_tier == 4
    then record moved { suspended = true; stable_since = none }
    else moved
