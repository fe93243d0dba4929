-- ===== src/Layout/Profile/Packed/Commands.antt =====
-- The command layout: packed, with one velocity block for the whole robot.
use robotele.Prelude.{
  ℕ, suc, ◌+◌, ◌*◌, ◌^◌, ◌<◌, ◌≡◌, refl, ap, sym, ◌∙◌, Bool, true, false, ◌||◌, ◌&&◌, not, List, [],
  ◌∷◌, ◌++◌, ◌==◌, if◌then◌else◌, arith, subst,
}
use robotele.Layout.Sizing.{QuantizationTier, bytes_per_field}
use robotele.Layout.Profile.{
  JointDescriptor, CommandShape, kinematic, velocity_attitude, cartesian_end_effector,
  BodyRegionDescriptor, RobotProfile, CommandBlock, kinematic_block, velocity_block,
  cartesian_block, selected, joint_fields, region_blocks, command_blocks, derive_command_layout,
}
use robotele.Layout.Profile.Packed.{
  Packed, Packed-append, field_spans, joints_in, joint_fields-Packed, advance-add,
}
use mathlib.Core.List.{append-nil, append_assoc}
use native.Mathlib.Nat.{add-mul}

abbrev pub block_spans : List CommandBlock → List (ℕ × ℕ)
block_spans [] = []
block_spans (kinematic_block id fields ∷ bs) = field_spans fields ++ block_spans bs
block_spans (velocity_block offset len ∷ bs) = (offset, len) ∷ block_spans bs
block_spans (cartesian_block id offset len ∷ bs) = (offset, len) ∷ block_spans bs

block_spans-append :
    (xs ys : List CommandBlock) → block_spans (xs ++ ys) ≡ block_spans xs ++ block_spans ys
block_spans-append [] ys = refl
block_spans-append (kinematic_block id fields ∷ xs) ys =
    ap (λ s. field_spans fields ++ s) (block_spans-append xs ys)
    ∙ sym (append_assoc (field_spans fields) (block_spans xs) (block_spans ys))
block_spans-append (velocity_block offset len ∷ xs) ys = rw (block_spans-append xs ys) refl
block_spans-append (cartesian_block id offset len ∷ xs) ys = rw (block_spans-append xs ys) refl

abbrev pub velocity_blocks : List CommandBlock → ℕ
velocity_blocks [] = 0
velocity_blocks (kinematic_block id fields ∷ bs) = velocity_blocks bs
velocity_blocks (velocity_block offset len ∷ bs) = suc (velocity_blocks bs)
velocity_blocks (cartesian_block id offset len ∷ bs) = velocity_blocks bs

velocity_blocks-append :
    (xs ys : List CommandBlock)
    → velocity_blocks (xs ++ ys) ≡ velocity_blocks xs + velocity_blocks ys
velocity_blocks-append [] ys = omega arith
velocity_blocks-append (kinematic_block id fields ∷ xs) ys = velocity_blocks-append xs ys
velocity_blocks-append (velocity_block offset len ∷ xs) ys =
    omega (arith, velocity_blocks-append xs ys)
velocity_blocks-append (cartesian_block id offset len ∷ xs) ys = velocity_blocks-append xs ys

abbrev pub is_velocity : CommandShape → Bool
is_velocity velocity_attitude = true
is_velocity shape = false

-- What a region adds: a field for each joint, four for an end effector, and six once.
abbrev pub region_fields : {F : Type 0} → List (JointDescriptor F) → CommandShape → ℕ → Bool → ℕ
region_fields joints kinematic id emitted = joints_in (λ r. r == id) joints
region_fields joints velocity_attitude id emitted = if emitted then 0 else 6
region_fields joints cartesian_end_effector id emitted = 4

-- The fields of the selected regions, whether or not a velocity block is there already.
unfoldable pub command_fields :
    {F : Type 0} → List (JointDescriptor F) → List ℕ → Bool → List BodyRegionDescriptor → ℕ
command_fields joints region_ids emitted [] = 0
command_fields joints region_ids emitted (r ∷ rs) =
    let here = selected region_ids r.region_id in
    (if here then region_fields joints r.command_shape r.region_id emitted else 0)
    + command_fields joints region_ids (emitted || (here && is_velocity r.command_shape)) rs

-- Whether a selected region is commanded by velocity.
abbrev pub any_velocity : List ℕ → List BodyRegionDescriptor → Bool
any_velocity region_ids [] = false
any_velocity region_ids (r ∷ rs) =
    (selected region_ids r.region_id && is_velocity r.command_shape) || any_velocity region_ids rs

or_false : (b : Bool) → b ≡ b || false
or_false true = refl
or_false false = refl

region_blocks-Packed :
    {F : Type 0} (tier : QuantizationTier) (joints : List (JointDescriptor F))
    (shape : CommandShape) (id cursor : ℕ) (emitted : Bool)
    → cursor + region_fields joints shape id emitted * bytes_per_field tier < 2 ^ 32
    → let (blocks, (next, flag)) = region_blocks tier joints shape id cursor emitted in
      (next ≡ cursor + region_fields joints shape id emitted * bytes_per_field tier)
      × (Packed cursor (block_spans blocks) next
          × ((flag ≡ emitted || is_velocity shape)
              × (velocity_blocks blocks ≡ (if is_velocity shape && not emitted then 1 else 0))))
unfolding region_blocks Packed
region_blocks-Packed tier joints kinematic id cursor emitted h =
    let (end, (packed, count)) = joint_fields-Packed tier (λ r. r == id) 0 cursor joints h in
    (
      end,
      (
        rw (append-nil (field_spans (joint_fields tier (λ r. r == id) 0 cursor joints).0)) packed,
        (or_false emitted, refl),
      ),
    )
region_blocks-Packed tier joints velocity_attitude id cursor true h =
    (omega arith, (refl, (refl, refl)))
region_blocks-Packed tier joints velocity_attitude id cursor false h =
    let step = advance-add cursor (6 * bytes_per_field tier) h in
    (step, ((refl, sym step), (refl, refl)))
region_blocks-Packed tier joints cartesian_end_effector id cursor emitted h =
    let step = advance-add cursor (4 * bytes_per_field tier) h in
    (step, ((refl, sym step), (or_false emitted, refl)))

-- A region that is not selected has no blocks.
selected_blocks-Packed :
    {F : Type 0} (tier : QuantizationTier) (joints : List (JointDescriptor F)) (here : Bool)
    (shape : CommandShape) (id cursor : ℕ) (emitted : Bool)
    → cursor + (if here then region_fields joints shape id emitted else 0) * bytes_per_field tier
      < 2 ^ 32
    → let (blocks, (next, flag)) =
        if here
        then region_blocks tier joints shape id cursor emitted
        else ([], (cursor, emitted)) in
      (next
        ≡ cursor
          + (if here then region_fields joints shape id emitted else 0) * bytes_per_field tier)
      × (Packed cursor (block_spans blocks) next
          × ((flag ≡ emitted || (here && is_velocity shape))
              × (velocity_blocks blocks
                  ≡ (if (here && is_velocity shape) && not emitted then 1 else 0))))
unfolding Packed
selected_blocks-Packed tier joints true shape id cursor emitted h =
    region_blocks-Packed tier joints shape id cursor emitted h
selected_blocks-Packed tier joints false shape id cursor emitted h =
    (omega arith, (refl, (or_false emitted, refl)))

one_velocity :
    (emitted this others : Bool)
    → (if this && not emitted then 1 else 0) + (if others && not (emitted || this) then 1 else 0)
      ≡ (if (this || others) && not emitted then 1 else 0)
one_velocity true true others = ground arith
one_velocity true false others = ground arith
one_velocity false true others = ground arith
one_velocity false false others = ground arith

command_blocks-Packed :
    {F : Type 0} (tier : QuantizationTier) (joints : List (JointDescriptor F)) (region_ids : List ℕ)
    (cursor : ℕ) (emitted : Bool) (rs : List BodyRegionDescriptor)
    → cursor + command_fields joints region_ids emitted rs * bytes_per_field tier < 2 ^ 32
    → let blocks = command_blocks tier joints region_ids cursor emitted rs in
      Packed cursor
        (block_spans blocks)
        (cursor + command_fields joints region_ids emitted rs * bytes_per_field tier)
      × (velocity_blocks blocks ≡ (if any_velocity region_ids rs && not emitted then 1 else 0))
unfolding command_blocks command_fields Packed
command_blocks-Packed tier joints region_ids cursor emitted [] h = (omega arith, refl)
command_blocks-Packed tier joints region_ids cursor emitted (r ∷ rs) h =
    let width = bytes_per_field tier in
    let here = selected region_ids r.region_id in
    let this = here && is_velocity r.command_shape in
    let fields : ℕ = if here then region_fields joints r.command_shape r.region_id emitted else 0 in
    let more = command_fields joints region_ids (emitted || this) rs in
    let parts = add-mul fields more width in
    let (next, (packed, (flag, count))) =
      selected_blocks-Packed tier joints here r.command_shape r.region_id cursor emitted
        (omega (arith, parts)) in
    let (rest, rest_count) =
      command_blocks-Packed tier joints region_ids (cursor + fields * width) (emitted || this) rs
        (omega (arith, parts)) in
    let mid = cursor + fields * width in
    let total : mid + more * width ≡ cursor + (fields + more) * width = omega (arith, parts) in
    let blocks =
      (if here
        then region_blocks tier joints r.command_shape r.region_id cursor emitted
        else ([], (cursor, emitted))).0 in
    let later = command_blocks tier joints region_ids mid (emitted || this) rs in
    let packed' : Packed cursor (block_spans blocks) mid = rw next at packed in
    rw (next, flag)
      (
        rw (block_spans-append blocks later) (
            Packed-append cursor mid _ (block_spans blocks) (block_spans later) packed'
              (subst (λ to. Packed mid (block_spans later) to) total rest)),
        velocity_blocks-append blocks later
            ∙ omega
                (arith, count, rest_count, one_velocity emitted this (any_velocity region_ids rs)),
      )

-- Unless the layout overflows a `u32`, its blocks fill the bytes from 0 on without gap or overlap, up
-- to the size of the selected regions' fields; and there is one velocity block if a selected region
-- is commanded by velocity, however many are, and none if none is.
pub derive_command_layout-Packed :
    {F : Type 0} (tier : QuantizationTier) (profile : RobotProfile F) (region_ids : List ℕ)
    → command_fields profile.joints region_ids false profile.regions * bytes_per_field tier < 2 ^ 32
    → let blocks = derive_command_layout tier profile region_ids in
      Packed 0
        (block_spans blocks)
        (command_fields profile.joints region_ids false profile.regions * bytes_per_field tier)
      × (velocity_blocks blocks ≡ (if any_velocity region_ids profile.regions then 1 else 0))
unfolding derive_command_layout
derive_command_layout-Packed tier profile region_ids h =
    let (packed, count) =
      command_blocks-Packed tier profile.joints region_ids 0 false profile.regions
        (omega (arith, h)) in
    let size =
      command_fields profile.joints region_ids false profile.regions * bytes_per_field tier in
    let from_zero : 0 + size ≡ size = omega arith in
    let blocks = command_blocks tier profile.joints region_ids 0 false profile.regions in
    (subst (λ to. Packed 0 (block_spans blocks) to) from_zero packed, ground (arith, count))
