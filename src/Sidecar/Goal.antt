-- ===== src/Sidecar/Goal.antt =====
-- crates/robot-edge/src/zenoh_bridge.rs: the autonomy goal, a velocity that is valid for a while after
-- it was heard. An instant is a number of nanoseconds.
pub mod Expires
use robotele.Prelude.{
  ℕ, ◌+◌, ◌-◌, ◌/◌, ◌≡◌, Bool, true, false, not, ◌&&◌, Option, none, some, List, [], ◌∷◌, ltb, ◌==◌,
  if◌then◌else◌, length,
}
use robotele.Prelude.Bytes.{from_be_bytes, slice}

-- The f32 of the velocities, as an interface.
pub record Velocities : Type 1 where
  pub F : Type 0
  pub zero_float : F
  -- The value of 32 bits.
  pub from_bits : ℕ → F
  pub is_finite : F → Bool
  pub lt : F → F → Bool
  pub neg : F → F
  pub max_vx : F
  pub max_vy : F
  pub max_turn : F

abbrev pub autonomy_goal_ttl_ms : ℕ
autonomy_goal_ttl_ms = 500

-- `as_millis`
abbrev pub as_millis : ℕ → ℕ
as_millis d = d / 1_000_000

module _ (velocities : Velocities) where
  open velocities use {F, zero_float, from_bits, is_finite, lt, neg, max_vx, max_vy, max_turn}

  pub record AutonomyVelocity : Type 0 where
    pub vx : F
    pub vy : F
    pub turn : F

  abbrev pub still : AutonomyVelocity
  still = record { vx = zero_float; vy = zero_float; turn = zero_float }

  -- `v.clamp(-limit, limit)`, for a `v` that is no NaN.
  unfoldable pub clamp : F → F → F
  clamp limit v = if lt v (neg limit) then neg limit else if lt limit v then limit else v

  unfoldable pub float_at : ℕ → List ℕ → F
  float_at i payload = from_bits (from_be_bytes (slice i (i + 4) payload))

  unfoldable pub clamped : (vx vy turn : F) → AutonomyVelocity
  unfolding clamp
  clamped vx vy turn =
      if not (is_finite vx && (is_finite vy && is_finite turn))
      then still
      else record { vx = clamp max_vx vx; vy = clamp max_vy vy; turn = clamp max_turn turn }

  unfoldable pub decode_autonomy_velocity : List ℕ → AutonomyVelocity
  unfolding float_at clamped
  decode_autonomy_velocity payload =
      if not (length payload == 12)
      then still
      else clamped (float_at 0 payload) (float_at 4 payload) (float_at 8 payload)

  pub record AutonomyGoal : Type 0 where
    pub last_seen_ms : ℕ
    pub velocity : AutonomyVelocity
    pub epoch : ℕ

  unfoldable pub new : ℕ → AutonomyGoal
  new now = record { last_seen_ms = 0; velocity = still; epoch = now }

  unfoldable pub mark_seen : AutonomyGoal → ℕ → List ℕ → AutonomyGoal
  unfolding decode_autonomy_velocity
  mark_seen g now payload = record g {
    velocity = decode_autonomy_velocity payload;
    last_seen_ms = as_millis (now - g.epoch) + 1;
  }

  unfoldable pub asserted : AutonomyGoal → ℕ → Bool
  asserted g now =
      if g.last_seen_ms == 0
      then false
      else ltb (as_millis (now - g.epoch) + 1 - g.last_seen_ms) autonomy_goal_ttl_ms

  unfoldable pub current_velocity : AutonomyGoal → ℕ → AutonomyVelocity
  unfolding asserted
  current_velocity g now = if asserted g now then g.velocity else still
