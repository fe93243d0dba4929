-- ===== src/Layout/Sizing/Plans.antt =====
-- The datagrams carry every field once, evenly, within the budget.
use robotele.Prelude.{
  ℕ, zero, suc, ◌+◌, ◌-◌, ◌*◌, ◌/◌, ◌%◌, ◌^◌, ◌≤◌, ◌<◌, ◌≡◌, refl, ap, subst, Bool, true, false,
  ◌||◌, List, [], ◌∷◌, leb, ◌==◌, arith, Bool-cases, inl, inr, ltb→lt, leb→le, ==_iff, length,
}
use robotele.Prelude.Result.{Result, ok, err}
use robotele.Layout.Sizing.{
  QuantizationTier, compact, standard, full, bytes_per_field, fixed_overhead_bytes,
  application_payload_bytes, DatagramPlan, plan, div_ceil, fields_at, plan_loop,
  max_fields_per_datagram, split, plan_datagrams, HapticTierViolation,
}
use native.Mathlib.Nat.{
  mod-add-div', mod-lt, mod-eq_of_lt, add-mul, one-mul, zero-mul, mul_comm, le_of_mul-le-mul_left,
  eq-zero-or-pos,
}

abbrev pub total_fields : List DatagramPlan → ℕ
total_fields [] = 0
total_fields (p ∷ ps) = p.num_fields + total_fields ps

abbrev pub AllPlans : (DatagramPlan → Type 0) → List DatagramPlan → Type 0
AllPlans P [] = Unit {0}
AllPlans P (p ∷ ps) = P p × AllPlans P ps

plan_loop-total :
    (base extra i left : ℕ) (tier : QuantizationTier) (haptic : Bool)
    → extra ≤ i + left
    → total_fields (plan_loop base extra i left tier haptic) ≡ left * base + (extra - i)
unfolding plan_loop
plan_loop-total base extra i zero tier haptic h = omega arith
plan_loop-total base extra i (suc left) tier haptic h =
    ground
      (arith, plan_loop-total base extra (i + 1) left tier haptic (omega arith), ltb→lt i extra)

-- A datagram's fields are `base` or one more, the latter only if there is a remainder.
abbrev pub Balanced : ℕ → ℕ → DatagramPlan → Type 0
Balanced base extra p =
    (base ≤ p.num_fields) × ((p.num_fields ≤ base + 1) × ((extra ≡ 0) → p.num_fields ≤ base))

plan_loop-AllPlans :
    (P : DatagramPlan → Type 0) (base extra i left : ℕ) (tier : QuantizationTier) (haptic : Bool)
    → ((j : ℕ) → P (plan (fields_at base extra j) tier haptic))
    → AllPlans P (plan_loop base extra i left tier haptic)
unfolding plan_loop
plan_loop-AllPlans P base extra i zero tier haptic h = tt
plan_loop-AllPlans P base extra i (suc left) tier haptic h =
    (h i, plan_loop-AllPlans P base extra (i + 1) left tier haptic h)

div_ceil-covers : (n m : ℕ) → 0 < m → n ≤ div_ceil n m * m
unfolding div_ceil
div_ceil-covers n m h =
    ground (arith, ==_iff (n % m) 0, mod-add-div' n m, add-mul (n / m) 1 m, one-mul m, mod-lt n h)

div_ceil-positive : (n m : ℕ) → 0 < m → 0 < n → 0 < div_ceil n m
div_ceil-positive n m h k = elim (eq-zero-or-pos (div_ceil n m)) [
  | inr p ↦ p
  | inl e ↦
      let none_left : n ≤ 0 * m = subst (λ q. n ≤ q * m) e (div_ceil-covers n m h) in
      omega (arith, zero-mul m)
]

-- The largest share is within the bound per datagram.
fields_at-le :
    (num_fields n bound i : ℕ)
    → 0 < n
    → num_fields ≤ n * bound
    → fields_at (num_fields / n) (num_fields % n) i ≤ bound
fields_at-le num_fields n bound i h k =
    let parts = mod-add-div' num_fields n in
    let swap = mul_comm n (num_fields / n) in
    let base_le : num_fields / n ≤ bound =
      le_of_mul-le-mul_left {m = num_fields / n} {n = bound} {k = n} (omega (arith, parts, swap))
        h in
    ground (
      arith,
      parts,
      swap,
      base_le,
      ltb→lt i (num_fields % n),
      ap (λ b. n * b) {x = num_fields / n} {y = bound},
    )

share-le_budget :
    (fields budget : ℕ) (tier : QuantizationTier) (haptic : Bool)
    → fixed_overhead_bytes haptic + bytes_per_field tier ≤ budget
    → fields ≤ max_fields_per_datagram tier haptic budget
    → fields * bytes_per_field tier + fixed_overhead_bytes haptic ≤ budget
unfolding max_fields_per_datagram
share-le_budget fields budget compact haptic r h = omega arith
share-le_budget fields budget standard haptic r h = omega arith
share-le_budget fields budget full haptic r h = omega arith

max_fields-positive :
    (tier : QuantizationTier) (haptic : Bool) (budget : ℕ)
    → 0 < max_fields_per_datagram tier haptic budget
unfolding max_fields_per_datagram
max_fields-positive tier haptic budget = omega arith

length-plan_loop :
    (base extra i left : ℕ) (tier : QuantizationTier) (haptic : Bool)
    → length (plan_loop base extra i left tier haptic) ≡ left
unfolding plan_loop
length-plan_loop base extra i zero tier haptic = refl
length-plan_loop base extra i (suc left) tier haptic =
    omega (arith, length-plan_loop base extra (i + 1) left tier haptic)

-- One datagram: its real size, and its fields against an equal share.
pub record GoodPlan (budget : ℕ) (tier : QuantizationTier) (haptic : Bool) (share : ℕ)
    (p : DatagramPlan) : Type 0 where
  pub within : p.num_fields * bytes_per_field tier + fixed_overhead_bytes haptic ≤ budget
  pub at_least : share ≤ p.num_fields
  pub at_most : p.num_fields ≤ share + 1

pub record Fits (num_fields budget : ℕ) (tier : QuantizationTier) (haptic : Bool)
    (plans : List DatagramPlan) : Type 0 where
  pub every_field : total_fields plans ≡ num_fields
  pub good : AllPlans (GoodPlan budget tier haptic (num_fields / length plans)) plans

module _ (num_fields budget : ℕ) (tier : QuantizationTier) (haptic : Bool)
    (room : fixed_overhead_bytes haptic + bytes_per_field tier ≤ budget)
    (no_overflow : num_fields * bytes_per_field tier + fixed_overhead_bytes haptic < 2 ^ 32) where
  loop-Fits :
      (n : ℕ)
      → 0 < n
      → num_fields ≤ n * max_fields_per_datagram tier haptic budget
      → Fits num_fields budget tier haptic
          (plan_loop (num_fields / n) (num_fields % n) 0 n tier haptic)
  loop-Fits n h k = record {
    every_field = omega (
      arith,
      plan_loop-total (num_fields / n) (num_fields % n) 0 n tier haptic
          (omega (arith, mod-lt num_fields h)),
      mod-add-div' num_fields n,
      mul_comm n (num_fields / n),
    );
    good = rw (length-plan_loop (num_fields / n) (num_fields % n) 0 n tier haptic) (
        plan_loop-AllPlans (GoodPlan budget tier haptic (num_fields / n)) (num_fields / n)
          (num_fields % n) 0 n tier haptic
          (λ j. record {
            within =
                share-le_budget _ budget tier haptic room
                  (fields_at-le num_fields n (max_fields_per_datagram tier haptic budget) j h k);
            at_least = omega arith;
            at_most = ground arith;
          }));
  }

  one-Fits :
      num_fields * bytes_per_field tier + fixed_overhead_bytes haptic ≤ budget
      → Fits num_fields budget tier haptic (plan num_fields tier haptic ∷ [])
  one-Fits h = record {
    every_field = omega arith;
    good = (record { within = h; at_least = omega arith; at_most = omega arith }, tt);
  }

  split-Fits : Fits num_fields budget tier haptic (split num_fields tier haptic budget)
  unfolding split application_payload_bytes
  split-Fits =
      elim (Bool-cases
        (leb (application_payload_bytes num_fields tier haptic) budget || num_fields == 0)) [
          | inl q ↦
              rw (q, split)
                (one-Fits (
                  ground (
                    arith,
                    mod-eq_of_lt no_overflow,
                    leb→le (application_payload_bytes num_fields tier haptic) budget,
                    ==_iff num_fields 0,
                  )))
          | inr q ↦
              rw (q, split)
                (let bound_positive : 0 < max_fields_per_datagram tier haptic budget =
                    max_fields-positive tier haptic budget in
                  loop-Fits (div_ceil num_fields (max_fields_per_datagram tier haptic budget))
                    (div_ceil-positive num_fields _ bound_positive
                      (ground (arith, ==_iff num_fields 0)))
                    (div_ceil-covers num_fields _ bound_positive))
        ]

-- What the caller gets: a refusal only for a haptic datagram below the floor, or plans that fit.
abbrev pub Answer :
    ℕ → ℕ → QuantizationTier → Bool → Result HapticTierViolation (List DatagramPlan) → Type 0
Answer num_fields budget tier haptic (err e) =
    (haptic ≡ true) × ((tier ≡ compact) × (e.tier ≡ tier))
Answer num_fields budget tier haptic (ok plans) =
    ((haptic ≡ true) → 2 ≤ bytes_per_field tier) × Fits num_fields budget tier haptic plans

split-Answer :
    (num_fields budget : ℕ) (tier : QuantizationTier) (haptic : Bool)
    → Fits num_fields budget tier haptic (split num_fields tier haptic budget)
    → Answer num_fields budget tier haptic (plan_datagrams num_fields tier haptic budget)
unfolding plan_datagrams
split-Answer num_fields budget compact true f = (refl, (refl, refl))
split-Answer num_fields budget standard true f = (λ e. omega arith, f)
split-Answer num_fields budget full true f = (λ e. omega arith, f)
split-Answer num_fields budget tier false f = (λ e. cc, f)

-- If a datagram with one field fits the budget, and the fields together do not overflow a `u32`,
-- then the plan is refused only for haptic fields at the compact tier; otherwise its datagrams carry
-- every field, each fits the budget, and their numbers of fields differ by one at most.
pub plan_datagrams-Answer :
    (num_fields budget : ℕ) (tier : QuantizationTier) (haptic : Bool)
    → fixed_overhead_bytes haptic + bytes_per_field tier ≤ budget
    → num_fields * bytes_per_field tier + fixed_overhead_bytes haptic < 2 ^ 32
    → Answer num_fields budget tier haptic (plan_datagrams num_fields tier haptic budget)
plan_datagrams-Answer num_fields budget tier haptic room no_overflow =
    split-Answer num_fields budget tier haptic
      (split-Fits num_fields budget tier haptic room no_overflow)
