-- ===== src/Sidecar/Goal/Expires.antt =====
-- crates/robot-edge/src/zenoh_bridge.rs: what the goal says after any samples, and what the robot
-- makes of it.
use robotele.Prelude.{
  ℕ, ◌+◌, ◌-◌, ◌<◌, ◌≤◌, ◌≡◌, refl, true, false, not, ◌&&◌, List, [], ◌∷◌, arith, ◌==◌, length,
  Bool-cases, inl, inr,
}
use robotele.Safety.Arbitration.{semi_autonomous}
use robotele.Safety.Task.{SafetyTask, tick}
use robotele.Safety.Task.Teleop.{semi_autonomous_only}
use robotele.Sidecar.Goal.{
  Velocities, AutonomyVelocity, AutonomyGoal, clamp, clamped, decode_autonomy_velocity, new,
  mark_seen, asserted, current_velocity, float_at,
}

abbrev pub ttl : ℕ
ttl = 500_000_000

abbrev pub one_ms : ℕ
one_ms = 1_000_000

module _ (velocities : Velocities) where
  open velocities use {F, zero_float, lt, neg, max_vx, max_vy, max_turn}

  -- The goal made at `epoch`, after samples of which the newest stands first.
  unfoldable pub heard : ℕ → List (ℕ × List ℕ) → AutonomyGoal velocities
  unfolding new mark_seen
  heard epoch [] = new velocities epoch
  heard epoch ((at, payload) ∷ samples) = mark_seen velocities (heard epoch samples) at payload

  epoch_kept : (epoch : ℕ) (samples : List (ℕ × List ℕ)) → (heard epoch samples).epoch ≡ epoch
  unfolding heard new mark_seen
  epoch_kept epoch [] = refl
  epoch_kept epoch ((at, payload) ∷ samples) = epoch_kept epoch samples

  -- What the newest sample, not older than the goal, says of a time.
  abbrev pub IsFresh : ℕ → ℕ → List (ℕ × List ℕ) → Type 0
  IsFresh epoch now [] = ⊥
  IsFresh epoch now ((at, payload) ∷ samples) = now - at < ttl

  abbrev pub IsYoung : ℕ → List (ℕ × List ℕ) → Type 0
  IsYoung now [] = ⊥
  IsYoung now ((at, payload) ∷ samples) = now - at + one_ms ≤ ttl

  abbrev pub AllSince : ℕ → List (ℕ × List ℕ) → Type 0
  AllSince epoch [] = Unit
  AllSince epoch ((at, payload) ∷ samples) = (epoch ≤ at) × AllSince epoch samples

  -- The goal is asserted only while the newest sample is less than 500 ms old, however many came
  -- before, and it is as long as that sample is at most 499 ms old.
  pub asserted-IsFresh :
      (epoch now : ℕ) (samples : List (ℕ × List ℕ))
      → AllSince epoch samples
      → (asserted velocities (heard epoch samples) now ≡ true → IsFresh epoch now samples)
        × (IsYoung now samples → asserted velocities (heard epoch samples) now ≡ true)
  unfolding asserted heard mark_seen new
  asserted-IsFresh epoch now [] since = (λ h. cc, λ h. absurd h)
  asserted-IsFresh epoch now ((at, payload) ∷ samples) since =
      (λ h. ground (arith, epoch_kept epoch samples), λ h. ground (arith, epoch_kept epoch samples))

  -- Autonomy drives only while the newest sample of its goal is less than 500 ms old: whatever the
  -- state of the safety task, a sample that stops coming stops it.
  pub autonomy_expires :
      (t : SafetyTask) (epoch now : ℕ) (samples : List (ℕ × List ℕ))
      → AllSince epoch samples
      → (tick t now (asserted velocities (heard epoch samples) now)).1 ≡ semi_autonomous
      → IsFresh epoch now samples
  autonomy_expires t epoch now samples since h =
      (asserted-IsFresh epoch now samples since).0
        (((semi_autonomous_only t now (asserted velocities (heard epoch samples) now)).0.0 h).0)

  -- A velocity that is at most the limit, either way.
  abbrev pub IsWithin : F → F → Type 0
  IsWithin limit v = (lt v (neg limit) ≡ false) × (lt limit v ≡ false)

  abbrev pub IsLimited : AutonomyVelocity velocities → Type 0
  IsLimited v = IsWithin max_vx v.vx × IsWithin max_vy v.vy × IsWithin max_turn v.turn

  module _ (irreflexive : (v : F) → lt v v ≡ false)
      (vx_ordered : IsWithin max_vx zero_float × (lt max_vx (neg max_vx) ≡ false))
      (vy_ordered : IsWithin max_vy zero_float × (lt max_vy (neg max_vy) ≡ false))
      (turn_ordered : IsWithin max_turn zero_float × (lt max_turn (neg max_turn) ≡ false)) where
    clamp-IsWithin :
        (limit v : F) → lt limit (neg limit) ≡ false → IsWithin limit (clamp velocities limit v)
    unfolding clamp
    clamp-IsWithin limit v h = ground (arith, h, irreflexive (neg limit), irreflexive limit)

    clamped-IsLimited : (vx vy turn : F) → IsLimited (clamped velocities vx vy turn)
    unfolding clamped
    clamped-IsLimited vx vy turn =
        elim (Bool-cases (
          not
            (velocities.is_finite vx && (velocities.is_finite vy && velocities.is_finite turn)))) [
              | inl e ↦ rw e (vx_ordered.0, vy_ordered.0, turn_ordered.0)
              | inr e ↦ rw e (
                clamp-IsWithin max_vx vx vx_ordered.1,
                clamp-IsWithin max_vy vy vy_ordered.1,
                clamp-IsWithin max_turn turn turn_ordered.1,
              )
            ]

    decode-IsLimited : (payload : List ℕ) → IsLimited (decode_autonomy_velocity velocities payload)
    unfolding decode_autonomy_velocity
    decode-IsLimited payload = elim (Bool-cases (not (length payload == 12))) [
      | inl e ↦ rw e (vx_ordered.0, vy_ordered.0, turn_ordered.0)
      | inr e ↦ rw e (
          clamped-IsLimited (float_at velocities 0 payload) (float_at velocities 4 payload)
            (float_at velocities 8 payload))
    ]

    heard-IsLimited :
        (epoch : ℕ) (samples : List (ℕ × List ℕ)) → IsLimited (heard epoch samples).velocity
    unfolding heard new mark_seen
    heard-IsLimited epoch [] = (vx_ordered.0, vy_ordered.0, turn_ordered.0)
    heard-IsLimited epoch ((at, payload) ∷ samples) = decode-IsLimited payload

    -- Whatever bytes the samples have, the velocity that the goal gives at any time is within the
    -- operator's limits on each axis, both ways.
    pub velocity-IsLimited :
        (epoch now : ℕ) (samples : List (ℕ × List ℕ))
        → IsLimited (current_velocity velocities (heard epoch samples) now)
    unfolding current_velocity
    velocity-IsLimited epoch now samples =
        elim (Bool-cases (asserted velocities (heard epoch samples) now)) [
          | inl e ↦ rw e (heard-IsLimited epoch samples)
          | inr e ↦ rw e (vx_ordered.0, vy_ordered.0, turn_ordered.0)
        ]
