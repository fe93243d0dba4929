-- ===== src/Safety/Arbitration.antt =====
-- crates/roboprotocol-core/src/safety/arbitration.rs: the control source ladder.
pub mod Ladder
use robotele.Prelude.{Bool, ◌&&◌, ◌||◌, if◌then◌else◌}

pub data ControlSource : Type 0 where
  e_stop emergency_safe_parking active_impedance_hold : ControlSource
  full_teleoperation semi_autonomous : ControlSource

pub record ArbitrationInputs : Type 0 where
  pub estop_latched : Bool
  pub safe_parking_requested : Bool
  pub suspended : Bool
  pub resume_dwell_exceeded : Bool
  pub teleop_ready : Bool
  pub autonomy_goal_asserted : Bool

unfoldable pub arbitrate : ArbitrationInputs → ControlSource
arbitrate i =
    if i.estop_latched
    then e_stop
    else if i.safe_parking_requested || i.suspended && i.resume_dwell_exceeded
    then emergency_safe_parking
    else if i.suspended
    then active_impedance_hold
    else if i.teleop_ready
    then full_teleoperation
    else if i.autonomy_goal_asserted
    then semi_autonomous
    else active_impedance_hold
