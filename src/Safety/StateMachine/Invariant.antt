-- ===== src/Safety/StateMachine/Invariant.antt =====
-- What holds of the tier state machine after any sequence of samples and reset requests.
use robotele.Prelude.{ℕ, ◌≤◌, ◌≡◌, refl, sym, true, false, none, List, [], ◌∷◌, ◌++◌, arith}
use robotele.Safety.Tiers.{TaskClass, tier_for_latency, tier_for_latency-le-4}
use robotele.Safety.StateMachine.{
  SafetyStateMachine, TierTransition, TransitionTrigger, latency, resume, new,
  request_deadman_reset, on_rtt_sample,
}

-- A log of transitions that leads from tier `from` to tier `to`, each one from where the last ended.
abbrev pub Chain : ℕ → List TierTransition → ℕ → Type 0
Chain from [] to = from ≡ to
Chain from (t ∷ ts) to = (t.old_tier ≡ from) × Chain t.new_tier ts to

Chain-push :
    (from old now next : ℕ) (trigger : TransitionTrigger) (ts : List TierTransition)
    → Chain from ts old
    → Chain from
        (ts ++ record { at = now; old_tier = old; new_tier = next; trigger = trigger } ∷ [])
        next
Chain-push from old now next trigger [] h = (sym h, refl)
Chain-push from old now next trigger (t ∷ ts) h =
    (h.0, Chain-push t.new_tier old now next trigger ts h.1)

-- The robot is suspended exactly at tier 4, no stretch is timed unless it is, and the log of
-- transitions leads from tier 0 to the present tier.
pub record Inv (m : SafetyStateMachine) : Type 0 where
  pub tier_bounded : m.tier ≤ 4
  pub suspended_at_4 : m.suspended ≡ true → m.tier ≡ 4
  pub at_4_suspended : m.tier ≡ 4 → m.suspended ≡ true
  pub untimed : m.suspended ≡ false → m.stable_since ≡ none
  pub logged : Chain 0 m.transitions m.tier

new-Inv : (c : TaskClass) (now : ℕ) → Inv (new c now)
unfolding new
new-Inv c now = ground arith

request_deadman_reset-Inv : (m : SafetyStateMachine) → Inv m → Inv (request_deadman_reset m)
unfolding request_deadman_reset
request_deadman_reset-Inv m v = ground arith

on_rtt_sample-Inv : (m : SafetyStateMachine) (rtt now : ℕ) → Inv m → Inv (on_rtt_sample m rtt now)
unfolding on_rtt_sample
on_rtt_sample-Inv m rtt now v = ground (
  arith,
  tier_for_latency-le-4 m.task_class rtt,
  Chain-push 0 m.tier now (tier_for_latency m.task_class rtt) latency m.transitions,
  Chain-push 0 m.tier now 0 resume m.transitions,
)

-- The operations on the machine, and the machine after a history of them, the newest first.
pub data Event : Type 0 where
  sample : (rtt now : ℕ) → Event
  reset_request : Event

unfoldable pub step : SafetyStateMachine → Event → SafetyStateMachine
step m (sample rtt now) = on_rtt_sample m rtt now
step m reset_request = request_deadman_reset m

unfoldable pub replay : SafetyStateMachine → List Event → SafetyStateMachine
unfolding step
replay m [] = m
replay m (e ∷ es) = step (replay m es) e

step-Inv : (m : SafetyStateMachine) (e : Event) → Inv m → Inv (step m e)
unfolding step
step-Inv m (sample rtt now) v = on_rtt_sample-Inv m rtt now v
step-Inv m reset_request v = request_deadman_reset-Inv m v

-- Whatever the samples and requests, the machine is suspended exactly at tier 4, times a stable
-- stretch only while suspended, and its log of transitions leads from tier 0 to its tier.
pub replay-Inv : (c : TaskClass) (start : ℕ) (es : List Event) → Inv (replay (new c start) es)
unfolding replay
replay-Inv c start [] = new-Inv c start
replay-Inv c start (e ∷ es) = step-Inv (replay (new c start) es) e (replay-Inv c start es)
