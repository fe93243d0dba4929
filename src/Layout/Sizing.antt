-- ===== src/Layout/Sizing.antt =====
-- crates/roboprotocol-core/src/sizing.rs: quantization tiers and the split into datagrams.
pub mod Plans
use robotele.Prelude.{
  ℕ, zero, suc, ◌+◌, ◌-◌, ◌*◌, ◌/◌, ◌%◌, ◌^◌, Bool, true, false, ◌||◌, Option, none, some, List, [],
  ◌∷◌, ltb, leb, ◌==◌, if◌then◌else◌, max,
}
use robotele.Prelude.Result.{Result, ok, err}

pub data QuantizationTier : Type 0 where
  compact standard full : QuantizationTier

abbrev pub bytes_per_field : QuantizationTier → ℕ
bytes_per_field compact = 1
bytes_per_field standard = 2
bytes_per_field full = 4

abbrev pub haptic_min_tier : QuantizationTier
haptic_min_tier = standard

abbrev pub tdpa_metadata_bytes : ℕ
tdpa_metadata_bytes = 8

-- The timestamp, the sequence number, the HMAC and the framing.
abbrev pub fixed_overhead : ℕ
fixed_overhead = 8 + 8 + 32 + 12

abbrev pub single_datagram_budget : ℕ
single_datagram_budget = 1200

-- IPv4, UDP, QUIC and the AEAD tag.
abbrev pub wire_overhead : ℕ
wire_overhead = 20 + 8 + 9 + 16

pub record HapticTierViolation : Type 0 where
  pub tier : QuantizationTier

abbrev pub validate_haptic_tier : QuantizationTier → Result HapticTierViolation (Unit {0})
validate_haptic_tier tier =
    if ltb (bytes_per_field tier) (bytes_per_field haptic_min_tier)
    then err (record { tier = tier })
    else ok tt

abbrev pub fixed_overhead_bytes : Bool → ℕ
fixed_overhead_bytes carries_haptic =
    fixed_overhead + (if carries_haptic then tdpa_metadata_bytes else 0)

-- In `u32`: what is over 2 ^ 32 wraps around.
unfoldable pub application_payload_bytes : ℕ → QuantizationTier → Bool → ℕ
application_payload_bytes num_fields tier carries_haptic =
    (num_fields * bytes_per_field tier + fixed_overhead_bytes carries_haptic) % 2 ^ 32

unfoldable pub wire_bytes : ℕ → ℕ
wire_bytes app_payload_bytes = (app_payload_bytes + wire_overhead) % 2 ^ 32

pub record DatagramPlan : Type 0 where
  pub num_fields : ℕ
  pub app_bytes : ℕ
  pub on_wire : ℕ  -- `wire_bytes` in the source

abbrev pub plan : ℕ → QuantizationTier → Bool → DatagramPlan
plan fields tier carries_haptic =
    let app_bytes = application_payload_bytes fields tier carries_haptic in
    record { num_fields = fields; app_bytes = app_bytes; on_wire = wire_bytes app_bytes }

unfoldable pub div_ceil : ℕ → ℕ → ℕ
div_ceil n m = if n % m == 0 then n / m else n / m + 1

-- The body of the loop, at `i`.
abbrev pub fields_at : (base extra i : ℕ) → ℕ
fields_at base extra i = base + (if ltb i extra then 1 else 0)

-- The loop from `i`, for the datagrams that are left.
unfoldable pub plan_loop : (base extra i left : ℕ) → QuantizationTier → Bool → List DatagramPlan
plan_loop base extra i zero tier carries_haptic = []
plan_loop base extra i (suc left) tier carries_haptic =
    plan (fields_at base extra i) tier carries_haptic
    ∷ plan_loop base extra (i + 1) left tier carries_haptic

unfoldable pub max_fields_per_datagram : QuantizationTier → Bool → ℕ → ℕ
max_fields_per_datagram tier carries_haptic budget_bytes =
    max ((budget_bytes - fixed_overhead_bytes carries_haptic) / bytes_per_field tier) 1

-- Everything behind the tier's check.
unfoldable pub split : ℕ → QuantizationTier → Bool → ℕ → List DatagramPlan
split num_fields tier carries_haptic budget_bytes =
    let n_datagrams =
      div_ceil num_fields (max_fields_per_datagram tier carries_haptic budget_bytes) in
    if leb (application_payload_bytes num_fields tier carries_haptic) budget_bytes
      || num_fields == 0
    then plan num_fields tier carries_haptic ∷ []
    else plan_loop (num_fields / n_datagrams) (num_fields % n_datagrams) 0 n_datagrams tier
        carries_haptic

unfoldable pub plan_datagrams :
    ℕ → QuantizationTier → Bool → ℕ → Result HapticTierViolation (List DatagramPlan)
plan_datagrams num_fields tier carries_haptic budget_bytes =
    if carries_haptic
    then (elim (validate_haptic_tier tier) [
      | err e ↦ err e
      | ok u ↦ ok (split num_fields tier carries_haptic budget_bytes)
    ])
    else ok (split num_fields tier carries_haptic budget_bytes)

abbrev pub default_plan_datagrams :
    ℕ → QuantizationTier → Bool → Result HapticTierViolation (List DatagramPlan)
default_plan_datagrams num_fields tier carries_haptic =
    plan_datagrams num_fields tier carries_haptic single_datagram_budget
