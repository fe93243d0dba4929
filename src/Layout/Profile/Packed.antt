-- ===== src/Layout/Profile/Packed.antt =====
-- The layouts are packed: every field behind the one before it, without gap or overlap.
pub mod Commands
use robotele.Prelude.{
  ℕ, zero, suc, ◌+◌, ◌*◌, ◌%◌, ◌^◌, ◌<◌, ◌≡◌, refl, ap, sym, ◌∙◌, Bool, true, false, ◌||◌, not,
  Option, none, some, List, [], ◌∷◌, ◌++◌, ◌==◌, if◌then◌else◌, arith, Bool-cases, inl, inr, length,
  map, subst,
}
use robotele.Layout.Sizing.{QuantizationTier, bytes_per_field}
use robotele.Layout.Profile.{
  JointDescriptor, CommandShape, kinematic, velocity_attitude, cartesian_end_effector,
  BodyRegionDescriptor, RobotProfile, FieldOffset, CommandBlock, kinematic_block, velocity_block,
  cartesian_block, selected, advance, joint_fields, derive_layout, region_blocks, command_blocks,
  derive_command_layout,
}
use native.Mathlib.Nat.{mod-eq_of_lt, suc-mul}

-- Spans of bytes, an offset and a length each, that fill `from` to `to`.
unfoldable pub Packed : ℕ → List (ℕ × ℕ) → ℕ → Type 0
Packed from [] to = from ≡ to
Packed from ((offset, len) ∷ spans) to = (offset ≡ from) × Packed (from + len) spans to

pub Packed-append :
    (from mid to : ℕ) (xs ys : List (ℕ × ℕ))
    → Packed from xs mid
    → Packed mid ys to
    → Packed from (xs ++ ys) to
unfolding Packed
Packed-append from mid to [] ys p q = subst (λ m. Packed m ys to) (sym p) q
Packed-append from mid to ((offset, len) ∷ xs) ys p q =
    (p.0, Packed-append (from + len) mid to xs ys p.1 q)

abbrev pub field_spans : List FieldOffset → List (ℕ × ℕ)
field_spans [] = []
field_spans (f ∷ fs) = (f.byte_offset, f.byte_len) ∷ field_spans fs

-- How many joints a test on the region keeps.
unfoldable pub joints_in : {F : Type 0} → (ℕ → Bool) → List (JointDescriptor F) → ℕ
joints_in keep_region [] = 0
joints_in keep_region (j ∷ js) =
    let more = joints_in keep_region js in if keep_region j.region_id then suc more else more

pub advance-add : (cursor len : ℕ) → cursor + len < 2 ^ 32 → advance cursor len ≡ cursor + len
unfolding advance
advance-add cursor len h = mod-eq_of_lt h

pub joint_fields-Packed :
    {F : Type 0} (tier : QuantizationTier) (keep_region : ℕ → Bool) (i cursor : ℕ)
    (js : List (JointDescriptor F))
    → cursor + joints_in keep_region js * bytes_per_field tier < 2 ^ 32
    → let (fields, end) = joint_fields tier keep_region i cursor js in
      (end ≡ cursor + joints_in keep_region js * bytes_per_field tier)
      × (Packed cursor (field_spans fields) end × (length fields ≡ joints_in keep_region js))
unfolding joint_fields joints_in Packed
joint_fields-Packed tier keep_region i cursor [] h = (omega arith, (refl, refl))
joint_fields-Packed tier keep_region i cursor (j ∷ js) h =
    let width = bytes_per_field tier in
    let more = joints_in keep_region js in
    let product = suc-mul more width in
    elim (Bool-cases (keep_region j.region_id)) [
      | inl q ↦
          let h' : cursor + suc more * width < 2 ^ 32 = rw q at h in
          let step = advance-add cursor width (omega (arith, product)) in
          let (end, (packed, count)) =
            joint_fields-Packed tier keep_region (i + 1) (cursor + width) js
              (omega (arith, product)) in
          rw (q, step) (omega (arith, end, product), ((refl, packed), ap suc count))
      | inr q ↦ rw q (joint_fields-Packed tier keep_region (i + 1) cursor js (rw q at h))
    ]

-- Unless the layout overflows a `u32`, the telemetry layout has one field for each joint of the
-- selected regions, and the fields fill the bytes from 0 on without gap or overlap.
pub derive_layout-Packed :
    {F : Type 0} (tier : QuantizationTier) (profile : RobotProfile F) (region_ids : List ℕ)
    → let n = joints_in (selected region_ids) profile.joints in
      n * bytes_per_field tier < 2 ^ 32
      → let layout = derive_layout tier profile region_ids in
        (length layout ≡ n) × Packed 0 (field_spans layout) (n * bytes_per_field tier)
unfolding derive_layout
derive_layout-Packed tier profile region_ids h =
    let size = joints_in (selected region_ids) profile.joints * bytes_per_field tier in
    let fields = (joint_fields tier (selected region_ids) 0 0 profile.joints).0 in
    let (end, (packed, count)) =
      joint_fields-Packed tier (selected region_ids) 0 0 profile.joints (omega arith) in
    let from_zero : 0 + size ≡ size = omega arith in
    (count, subst (λ to. Packed 0 (field_spans fields) to) (end ∙ from_zero) packed)
