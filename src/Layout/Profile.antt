-- ===== src/Layout/Profile.antt =====
-- crates/roboprotocol-core/src/profile.rs: the byte layouts that both endpoints derive.
pub mod Packed
use robotele.Prelude.{
  ℕ, zero, suc, ◌+◌, ◌*◌, ◌%◌, ◌^◌, Bool, true, false, ◌||◌, not, Option, none, some, List, [], ◌∷◌,
  ◌++◌, ◌==◌, if◌then◌else◌,
}
use robotele.Layout.Sizing.{QuantizationTier, bytes_per_field}

-- The limits are of an abstract type `F` (`f32`).
pub record JointDescriptor (F : Type 0) : Type 0 where
  pub min_limit : F
  pub max_limit : F
  pub max_velocity : F
  pub has_torque_sensing : Bool
  pub region_id : ℕ  -- u8

pub data CommandShape : Type 0 where
  kinematic velocity_attitude cartesian_end_effector : CommandShape

abbrev pub fixed_field_count : CommandShape → Option ℕ
fixed_field_count kinematic = none
fixed_field_count velocity_attitude = some 6
fixed_field_count cartesian_end_effector = some 4

-- The name, which is for logs, is left out.
pub record BodyRegionDescriptor : Type 0 where
  pub region_id : ℕ  -- u8
  pub joint_start : ℕ  -- u16
  pub joint_count : ℕ  -- u16
  pub has_force_torque_sensor : Bool
  pub command_shape : CommandShape

pub data BaseType : Type 0 where
  stationary wheeled_standard wheeled_holonomic biped_legs quadruped_legs other : BaseType

abbrev pub requires_dynamic_balance_override : BaseType → Bool
requires_dynamic_balance_override biped_legs = true
requires_dynamic_balance_override base = false

abbrev pub lateral_velocity_meaningful : BaseType → Bool
lateral_velocity_meaningful wheeled_standard = false
lateral_velocity_meaningful base = true

pub record RobotProfile (F : Type 0) : Type 0 where
  pub dof_count : ℕ  -- u16
  pub joints : List (JointDescriptor F)
  pub regions : List BodyRegionDescriptor
  pub base_type : BaseType

pub record FieldOffset : Type 0 where
  pub joint_index : ℕ  -- u16
  pub byte_offset : ℕ  -- u32
  pub byte_len : ℕ  -- u32

pub data CommandBlock : Type 0 where
  kinematic_block : (region_id : ℕ) (joint_offsets : List FieldOffset) → CommandBlock
  velocity_block : (byte_offset byte_len : ℕ) → CommandBlock
  cartesian_block : (region_id byte_offset byte_len : ℕ) → CommandBlock

abbrev pub contains : ℕ → List ℕ → Bool
contains id [] = false
contains id (x ∷ xs) = x == id || contains id xs

-- No selection is every region.
abbrev pub selected : List ℕ → ℕ → Bool
selected [] id = true
selected (x ∷ xs) id = contains id (x ∷ xs)

-- `cursor += byte_len`, in `u32`.
unfoldable pub advance : ℕ → ℕ → ℕ
advance cursor byte_len = (cursor + byte_len) % 2 ^ 32

module _ {F : Type 0} (tier : QuantizationTier) where
  -- The loop over the joints, for the regions that a test keeps, and the cursor after it.
  unfoldable pub joint_fields : (ℕ → Bool) → ℕ → ℕ → List (JointDescriptor F) → List FieldOffset × ℕ
  joint_fields keep_region i cursor [] = ([], cursor)
  joint_fields keep_region i cursor (j ∷ js) =
      let kept = keep_region j.region_id in
      let next = if kept then advance cursor (bytes_per_field tier) else cursor in
      let (rest, end) = joint_fields keep_region (i + 1) next js in
      let this : FieldOffset = record {
        joint_index = i % 2 ^ 16;
        byte_offset = cursor;
        byte_len = bytes_per_field tier;
      } in
      (if kept then this ∷ rest else rest, end)

  unfoldable pub derive_layout : RobotProfile F → List ℕ → List FieldOffset
  derive_layout profile region_ids = (joint_fields (selected region_ids) 0 0 profile.joints).0

  -- One region's blocks, and the cursor and the flag after it.
  unfoldable pub region_blocks :
      List (JointDescriptor F) → CommandShape → ℕ → ℕ → Bool → List CommandBlock × (ℕ × Bool)
  region_blocks joints kinematic id cursor emitted =
      let (joint_offsets, end) = joint_fields (λ r. r == id) 0 cursor joints in
      (kinematic_block id joint_offsets ∷ [], (end, emitted))
  region_blocks joints velocity_attitude id cursor emitted =
      let byte_len = 6 * bytes_per_field tier in
      if emitted
      then ([], (cursor, emitted))
      else (velocity_block cursor byte_len ∷ [], (advance cursor byte_len, true))
  region_blocks joints cartesian_end_effector id cursor emitted =
      let byte_len = 4 * bytes_per_field tier in
      (cartesian_block id cursor byte_len ∷ [], (advance cursor byte_len, emitted))

  -- The loop over the regions.
  unfoldable pub command_blocks :
      List (JointDescriptor F) → List ℕ → ℕ → Bool → List BodyRegionDescriptor → List CommandBlock
  command_blocks joints region_ids cursor emitted [] = []
  command_blocks joints region_ids cursor emitted (r ∷ rs) =
      let (blocks, (next, flag)) =
        if selected region_ids r.region_id
        then region_blocks joints r.command_shape r.region_id cursor emitted
        else ([], (cursor, emitted)) in
      blocks ++ command_blocks joints region_ids next flag rs

  unfoldable pub derive_command_layout : RobotProfile F → List ℕ → List CommandBlock
  derive_command_layout profile region_ids =
      command_blocks profile.joints region_ids 0 false profile.regions
