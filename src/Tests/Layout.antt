-- ===== src/Tests/Layout.antt =====
-- The theorems on sizes and layouts at concrete inputs.
use robotele.Prelude.{ℕ, ◌≡◌, true, false, [], ◌∷◌, arith}
use robotele.Layout.Sizing.{standard, full, plan_datagrams, single_datagram_budget}
use robotele.Layout.Sizing.Plans.{Answer, plan_datagrams-Answer}
use robotele.Layout.Profile.{
  JointDescriptor, RobotProfile, kinematic, velocity_attitude, quadruped_legs,
  derive_command_layout,
}
use robotele.Layout.Profile.Packed.{Packed, joints_in}
use robotele.Layout.Profile.Packed.Commands.{
  block_spans, velocity_blocks, command_fields, derive_command_layout-Packed,
}

-- 600 fields of four bytes are over a datagram's 1200 bytes.
plan_datagrams-Answer_example :
    Answer 600 single_datagram_budget full true
      (plan_datagrams 600 full true single_datagram_budget)
plan_datagrams-Answer_example =
    plan_datagrams-Answer 600 single_datagram_budget full true (omega arith) (omega arith)

abbrev joint_of : ℕ → JointDescriptor ℕ
joint_of region_id = record {
  min_limit = 0;
  max_limit = 9;
  max_velocity = 1;
  has_torque_sensing = false;
  region_id = region_id;
}

-- An arm, and two legs that share the body's velocity.
abbrev walker : RobotProfile ℕ
walker = record {
  dof_count = 4;
  joints = joint_of 1 ∷ joint_of 2 ∷ joint_of 1 ∷ joint_of 3 ∷ [];
  regions =
      record {
        region_id = 2;
        joint_start = 1;
        joint_count = 1;
        has_force_torque_sensor = false;
        command_shape = velocity_attitude;
      }
      ∷ record {
        region_id = 1;
        joint_start = 0;
        joint_count = 2;
        has_force_torque_sensor = true;
        command_shape = kinematic;
      }
      ∷ record {
        region_id = 3;
        joint_start = 3;
        joint_count = 1;
        has_force_torque_sensor = false;
        command_shape = velocity_attitude;
      }
      ∷ [];
  base_type = quadruped_legs;
}

derive_command_layout-Packed_example :
    Packed 0 (block_spans (derive_command_layout standard walker [])) 16
    × (velocity_blocks (derive_command_layout standard walker []) ≡ 1)
unfolding joints_in command_fields
derive_command_layout-Packed_example = derive_command_layout-Packed standard walker [] (omega arith)
