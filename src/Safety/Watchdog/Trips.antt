-- ===== src/Safety/Watchdog/Trips.antt =====
-- How often the watchdog trips, and on what.
use robotele.Prelude.{
  ℕ, suc, ◌+◌, ◌≤◌, ◌≡◌, Bool, true, false, List, [], ◌∷◌, length, if◌then◌else◌,
}
use robotele.Safety.Watchdog.{Watchdog, WatchdogTrigger, heartbeat, check, clear}

pub data Call : Type 0 where
  beats checks clears : ℕ → Call

-- The watchdog after the calls, the newest first, and how many checks returned true.
unfoldable pub replay : Watchdog → List Call → Watchdog × ℕ
replay w [] = (w, 0)
replay w (beats now ∷ cs) = let (v, trips) = replay w cs in (heartbeat v now, trips)
replay w (checks now ∷ cs) =
    let (v, trips) = replay w cs in
    let (v', tripped) = check v now in (v', if tripped then suc trips else trips)
replay w (clears now ∷ cs) = let (v, trips) = replay w cs in (clear v now, trips)

abbrev pub clear_count : List Call → ℕ
clear_count [] = 0
clear_count (clears now ∷ cs) = suc (clear_count cs)
clear_count (beats now ∷ cs) = clear_count cs
clear_count (checks now ∷ cs) = clear_count cs

abbrev pub AllOver : ℕ → List WatchdogTrigger → Type 0
AllOver threshold [] = Unit {0}
AllOver threshold (t ∷ ts) = (threshold ≤ t.blackout) × AllOver threshold ts

abbrev pub armed : Bool → ℕ
armed true = 1
armed false = 0

pub record Accounts (threshold : ℕ) (cs : List Call) (w : Watchdog) (trips : ℕ) : Type 0 where
  pub same_threshold : w.threshold ≡ threshold
  pub recorded : length w.trigger_events ≡ trips
  pub rearmed : trips ≤ clear_count cs + armed w.triggered
  pub over : AllOver threshold w.trigger_events
