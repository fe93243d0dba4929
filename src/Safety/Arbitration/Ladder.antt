-- ===== src/Safety/Arbitration/Ladder.antt =====
-- The ladder of arbitration.rs as ranks: which source a rung admits, and which one wins.
use robotele.Prelude.{ℕ, ◌≤◌, ◌≡◌, Bool, true, false, ◌&&◌, ◌||◌, ◌⊎◌, arith}
use robotele.Safety.Arbitration.{
  ControlSource, e_stop, emergency_safe_parking, active_impedance_hold, full_teleoperation,
  semi_autonomous, ArbitrationInputs, arbitrate,
}

-- The condition of a source's own rung, whatever the rungs above it say.
abbrev pub admits : ArbitrationInputs → ControlSource → Bool
admits i e_stop = i.estop_latched
admits i emergency_safe_parking = i.safe_parking_requested || i.suspended && i.resume_dwell_exceeded
admits i active_impedance_hold = i.suspended
admits i full_teleoperation = i.teleop_ready
admits i semi_autonomous = i.autonomy_goal_asserted

abbrev pub rank : ControlSource → ℕ
rank e_stop = 1
rank emergency_safe_parking = 2
rank active_impedance_hold = 3
rank full_teleoperation = 4
rank semi_autonomous = 5

arbitrate-outranks :
    (i : ArbitrationInputs) (s : ControlSource) → admits i s ≡ true → rank (arbitrate i) ≤ rank s
unfolding arbitrate
arbitrate-outranks i e_stop h = ground arith
arbitrate-outranks i _ h = ground arith

nothing_admitted :
    (i : ArbitrationInputs)
    → i.estop_latched ≡ false
    → i.safe_parking_requested || i.suspended && i.resume_dwell_exceeded ≡ false
    → i.suspended ≡ false
    → i.teleop_ready ≡ false
    → i.autonomy_goal_asserted ≡ false
    → (s : ControlSource) → admits i s ≡ false
nothing_admitted i e p h t g e_stop = e
nothing_admitted i e p h t g emergency_safe_parking = p
nothing_admitted i e p h t g active_impedance_hold = h
nothing_admitted i e p h t g full_teleoperation = t
nothing_admitted i e p h t g semi_autonomous = g

arbitrate-admitted :
    (i : ArbitrationInputs)
    → (admits i (arbitrate i) ≡ true)
      ⊎ (arbitrate i ≡ active_impedance_hold) × ((s : ControlSource) → admits i s ≡ false)
unfolding arbitrate
arbitrate-admitted i = ground (arith, nothing_admitted i)

-- No rung that is admitted outranks the winner; and the winner's own rung is admitted, or no rung
-- is, and then the robot holds.
pub arbitrate-first :
    (i : ArbitrationInputs)
    → ((s : ControlSource) → admits i s ≡ true → rank (arbitrate i) ≤ rank s)
      × ((admits i (arbitrate i) ≡ true)
          ⊎ (arbitrate i ≡ active_impedance_hold) × ((s : ControlSource) → admits i s ≡ false))
arbitrate-first i = (arbitrate-outranks i, arbitrate-admitted i)
