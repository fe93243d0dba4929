-- ===== src/Safety/Tiers.antt =====
-- crates/roboprotocol-core/src/safety/tiers.rs: task classes, thresholds, and the tier of a latency.
-- A millisecond value of type `f64` is a whole number of nanoseconds here, as an `Instant` is.
use robotele.Prelude.{ℕ, ◌*◌, ◌≤◌, ◌≡◌, arith, ltb, if◌then◌else◌, leb, ◌+◌}

pub data TaskClass : Type 0 where
  class_b class_c class_d class_e : TaskClass

pub record TierThresholds : Type 0 where
  pub tier0_max : ℕ
  pub tier1_max : ℕ
  pub tier2_max : ℕ
  pub tier3_max : ℕ

abbrev pub ms : ℕ → ℕ
ms n = n * 1_000_000

unfoldable pub thresholds : TaskClass → TierThresholds
thresholds class_b = record {
  tier0_max = ms 40;
  tier1_max = ms 80;
  tier2_max = ms 120;
  tier3_max = ms 150;
}
thresholds class_c = record {
  tier0_max = ms 80;
  tier1_max = ms 150;
  tier2_max = ms 220;
  tier3_max = ms 300;
}
thresholds class_d = record {
  tier0_max = ms 100;
  tier1_max = ms 250;
  tier2_max = ms 400;
  tier3_max = ms 500;
}
thresholds class_e = record {
  tier0_max = ms 200;
  tier1_max = ms 400;
  tier2_max = ms 700;
  tier3_max = ms 1000;
}

unfoldable pub watchdog_blackout : TaskClass → ℕ
watchdog_blackout class_b = ms 200
watchdog_blackout class_c = ms 300
watchdog_blackout class_d = ms 400
watchdog_blackout class_e = ms 500

abbrev pub resume_hysteresis : ℕ
resume_hysteresis = ms 20

abbrev pub resume_stability_window : ℕ
resume_stability_window = ms 2000

unfoldable pub tier_for_latency : TaskClass → ℕ → ℕ
tier_for_latency task_class latency =
    if ltb latency th.tier0_max
    then 0
    else if ltb latency th.tier1_max
    then 1
    else if ltb latency th.tier2_max
    then 2
    else if ltb latency th.tier3_max
    then 3
    else 4
  where
    th : TierThresholds
    th = thresholds task_class

-- The tier as an independent count: how many of the four bounds the latency has reached.
abbrev pub reached : ℕ → ℕ → ℕ
reached bound latency = if leb bound latency then 1 else 0

unfoldable pub bounds_reached : TaskClass → ℕ → ℕ
bounds_reached task_class latency =
    reached th.tier0_max latency
    + reached th.tier1_max latency
    + reached th.tier2_max latency
    + reached th.tier3_max latency
  where
    th : TierThresholds
    th = thresholds task_class

-- The tier is the number of bounds reached, for every class and latency.
pub tier_for_latency-eq-bounds_reached :
    (task_class : TaskClass) (latency : ℕ)
    → tier_for_latency task_class latency ≡ bounds_reached task_class latency
unfolding tier_for_latency bounds_reached thresholds
tier_for_latency-eq-bounds_reached class_b latency = ground arith
tier_for_latency-eq-bounds_reached class_c latency = ground arith
tier_for_latency-eq-bounds_reached class_d latency = ground arith
tier_for_latency-eq-bounds_reached class_e latency = ground arith

pub tier_for_latency-le-4 :
    (task_class : TaskClass) (latency : ℕ) → tier_for_latency task_class latency ≤ 4
unfolding tier_for_latency
tier_for_latency-le-4 task_class latency = ground arith

-- A longer latency never has a lower tier.
pub tier_for_latency_mono :
    (task_class : TaskClass) (x y : ℕ)
    → x ≤ y
    → tier_for_latency task_class x ≤ tier_for_latency task_class y
unfolding tier_for_latency thresholds
tier_for_latency_mono class_b x y h = ground arith
tier_for_latency_mono class_c x y h = ground arith
tier_for_latency_mono class_d x y h = ground arith
tier_for_latency_mono class_e x y h = ground arith
