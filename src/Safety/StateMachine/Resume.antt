-- ===== src/Safety/StateMachine/Resume.antt =====
-- When a suspended robot resumes (SR-3.3): a reset request and an unbroken stable stretch.
use mathlib.Core.List.{Memᴰ}
use robotele.Prelude.{
  ℕ, ◌-◌, ◌≤◌, ◌<◌, ◌≡◌, ◌⊎◌, inl, inr, refl, sym, subst, ◌∙◌, true, false, none, some, List, [],
  ◌∷◌, arith, Option-cases,
}
use robotele.Safety.Tiers.{TaskClass, resume_stability_window}
use robotele.Safety.StateMachine.{
  SafetyStateMachine, new, request_deadman_reset, on_rtt_sample, resume_ceiling, since_or,
}
use robotele.Safety.StateMachine.Invariant.{Event, sample, reset_request, replay, Inv, replay-Inv}

-- A history, newest first, whose latest samples down to one at `start` are all below `ceiling`.
pub data CalmSince (ceiling start : ℕ) : List Event → Type 0 where
  first :
      (rtt : ℕ) (es : List Event) → rtt < ceiling → CalmSince ceiling start (sample rtt start ∷ es)
  more :
      (rtt now : ℕ) (es : List Event)
      → rtt < ceiling
      → CalmSince ceiling start es
      → CalmSince ceiling start (sample rtt now ∷ es)
  asked :
      (es : List Event) → CalmSince ceiling start es → CalmSince ceiling start (reset_request ∷ es)

record Timed (c : TaskClass) (es : List Event) (m : SafetyStateMachine) : Type 0 where
  same_class : m.task_class ≡ c
  calm : (t : ℕ) → m.stable_since ≡ some t → CalmSince (resume_ceiling c) t es
  requested : m.deadman_reset_requested ≡ true → Memᴰ reset_request es

-- What a stretch that is timed after a sample says of that sample and of the stretch before.
timed_after :
    (m : SafetyStateMachine) (rtt now t : ℕ)
    → Inv m
    → (on_rtt_sample m rtt now).stable_since ≡ some t
    → (rtt < resume_ceiling m.task_class)
      × ((m.stable_since ≡ some t) ⊎ (m.stable_since ≡ none) × (t ≡ now))
unfolding on_rtt_sample
timed_after m rtt now t v h = ground arith

resumed_after :
    (m : SafetyStateMachine) (rtt now : ℕ)
    → m.suspended ≡ true
    → (on_rtt_sample m rtt now).suspended ≡ false
    → (rtt < resume_ceiling m.task_class)
      × (m.deadman_reset_requested ≡ true)
      × (resume_stability_window ≤ now - since_or m.stable_since now)
unfolding on_rtt_sample
resumed_after m rtt now s h = ground arith

requested_after :
    (m : SafetyStateMachine) (rtt now : ℕ)
    → (on_rtt_sample m rtt now).deadman_reset_requested ≡ true
    → m.deadman_reset_requested ≡ true
unfolding on_rtt_sample
requested_after m rtt now h = ground arith

task_class-on_rtt_sample :
    (m : SafetyStateMachine) (rtt now : ℕ) → (on_rtt_sample m rtt now).task_class ≡ m.task_class
unfolding on_rtt_sample
task_class-on_rtt_sample m rtt now = ground arith

extend_calm :
    (c : TaskClass) (es : List Event) (m : SafetyStateMachine) (rtt now t : ℕ)
    → Timed c es m
    → rtt < resume_ceiling m.task_class
    → (m.stable_since ≡ some t) ⊎ (m.stable_since ≡ none) × (t ≡ now)
    → CalmSince (resume_ceiling c) t (sample rtt now ∷ es)
extend_calm c es m rtt now t v below (inl e) =
    more rtt now es (subst (λ k. rtt < resume_ceiling k) v.same_class below) (v.calm t e)
extend_calm c es m rtt now t v below (inr (e, at)) =
    subst (λ k. CalmSince (resume_ceiling c) k (sample rtt now ∷ es)) (sym at)
      (first rtt es (subst (λ k. rtt < resume_ceiling k) v.same_class below))

sample-Timed :
    (c : TaskClass) (es : List Event) (m : SafetyStateMachine) (rtt now : ℕ)
    → Inv m
    → Timed c es m
    → Timed c (sample rtt now ∷ es) (on_rtt_sample m rtt now)
sample-Timed c es m rtt now inv v = record {
  same_class = task_class-on_rtt_sample m rtt now ∙ v.same_class;
  calm = λ t h.
      let (below, was) = timed_after m rtt now t inv h in extend_calm c es m rtt now t v below was;
  requested = λ h. Memᴰ.tail (v.requested (requested_after m rtt now h));
}

reset-Timed :
    (c : TaskClass) (es : List Event) (m : SafetyStateMachine)
    → Timed c es m
    → Timed c (reset_request ∷ es) (request_deadman_reset m)
unfolding request_deadman_reset
reset-Timed c es m v = record {
  same_class = v.same_class;
  calm = λ t h. asked es (v.calm t h);
  requested = λ h. Memᴰ.head refl;
}

replay-Timed : (c : TaskClass) (start : ℕ) (es : List Event) → Timed c es (replay (new c start) es)
unfolding replay new
replay-Timed c start [] = record { same_class = refl; calm = λ t h. cc; requested = λ h. cc }
replay-Timed c start (sample rtt now ∷ es) =
    sample-Timed c es _ rtt now (replay-Inv c start es) (replay-Timed c start es)
replay-Timed c start (reset_request ∷ es) = reset-Timed c es _ (replay-Timed c start es)

calm_window :
    (c : TaskClass) (es : List Event) (m : SafetyStateMachine) (rtt now : ℕ)
    → Timed c es m
    → rtt < resume_ceiling m.task_class
    → resume_stability_window ≤ now - since_or m.stable_since now
    → (t : ℕ) × CalmSince (resume_ceiling c) t (sample rtt now ∷ es)
      × (resume_stability_window ≤ now - t)
calm_window c es m rtt now v below window = elim (Option-cases m.stable_since) [
  | inl e ↦ absurd (ground arith)
  | inr (t, e) ↦ (t, extend_calm c es m rtt now t v below (inl e), ground arith)
]

-- If a sample ends a suspension, then the operator has asked for a reset at some time before, and
-- every sample from one at least the stability window (2 s) earlier up to this one was below the
-- resume ceiling of the task class (its tier 0 bound less the hysteresis).
pub resume_needs_calm :
    (c : TaskClass) (start : ℕ) (es : List Event) (rtt now : ℕ)
    → (replay (new c start) es).suspended ≡ true
    → (replay (new c start) (sample rtt now ∷ es)).suspended ≡ false
    → Memᴰ reset_request es
      × (t : ℕ) × CalmSince (resume_ceiling c) t (sample rtt now ∷ es)
      × (resume_stability_window ≤ now - t)
unfolding replay
resume_needs_calm c start es rtt now s h =
    let m = replay (new c start) es in
    let v = replay-Timed c start es in
    let (below, asked_for, window) = resumed_after m rtt now s h in
    let (t, calm, long) = calm_window c es m rtt now v below window in
    (v.requested asked_for, t, calm, long)
