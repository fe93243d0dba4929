-- ===== src/Video/Gate.antt =====
-- crates/operator-console/src/video/gate.rs: which NAL units reach the decoder, and the queue of
-- deltas before it.
pub mod Freeze
use robotele.Prelude.{
  ℕ, suc, ◌+◌, ◌%◌, ◌^◌, Bool, true, false, ◌||◌, Option, none, some, List, [], ◌∷◌, ◌++◌, min, ltb,
  leb, ◌==◌, if◌then◌else◌, length,
}

abbrev pub restart_gap : ℕ
restart_gap = 1000

abbrev pub nal_idr : ℕ
nal_idr = 5

abbrev pub nal_sps : ℕ
nal_sps = 7

abbrev pub nal_pps : ℕ
nal_pps = 8

abbrev pub u32_max : ℕ
u32_max = 4_294_967_295

pub record GateStats : Type 0 where
  pub freezes : ℕ  -- u64
  pub deltas_held : ℕ  -- u64

pub record DeltaGate : Type 0 where
  pub next_id : Option ℕ
  pub frozen : Bool
  pub stats : GateStats

unfoldable pub new : DeltaGate
new = record { next_id = none; frozen = false; stats = record { freezes = 0; deltas_held = 0 } }

unfoldable pub freeze : DeltaGate → DeltaGate
freeze g =
    let stats = g.stats in
    if g.frozen
    then g
    else record g { frozen = true; stats = record stats { freezes = stats.freezes + 1 } }

abbrev pub is_parameter_set : ℕ → Bool
is_parameter_set t = t == nal_sps || t == nal_pps

-- `nal_id.saturating_add(RESTART_GAP) < expected`
abbrev pub is_restart : Option ℕ → ℕ → Bool
is_restart none nal_id = false
is_restart (some expected) nal_id = ltb (min (nal_id + restart_gap) u32_max) expected

-- The last `match` of `admit`, after `next_id` is set.
unfoldable pub by_type : DeltaGate → ℕ → DeltaGate × Bool
by_type g nal_type =
    let stats = g.stats in
    if is_parameter_set nal_type
    then (g, true)
    else if nal_type == nal_idr
    then (record g { frozen = false }, true)
    else if g.frozen
    then (record g { stats = record stats { deltas_held = stats.deltas_held + 1 } }, false)
    else (g, true)

unfoldable pub in_order : DeltaGate → ℕ → ℕ → DeltaGate × Bool
unfolding by_type
in_order g nal_id nal_type = by_type (record g { next_id = some ((nal_id + 1) % 2 ^ 32) }) nal_type

unfoldable pub admit_at : Option ℕ → DeltaGate → ℕ → ℕ → DeltaGate × Bool
unfolding in_order freeze
admit_at none g nal_id nal_type = in_order g nal_id nal_type
admit_at (some expected) g nal_id nal_type =
    if ltb nal_id expected
    then (g, is_parameter_set nal_type)
    else in_order (if ltb expected nal_id then freeze g else g) nal_id nal_type

unfoldable pub admit : DeltaGate → ℕ → ℕ → DeltaGate × Bool
unfolding admit_at
admit g nal_id nal_type =
    let fresh = record g { next_id = none; frozen = false } in
    let g' = if is_restart g.next_id nal_id then fresh else g in
    admit_at g'.next_id g' nal_id nal_type

unfoldable pub playback_overflowed : DeltaGate → DeltaGate
unfolding freeze
playback_overflowed g = freeze g

abbrev pub delta_queue_cap : ℕ
delta_queue_cap = 8

-- `DeltaSlot`: its queue, without the lock and the wake-up.
unfoldable pub offer : List (List ℕ) → List ℕ → List (List ℕ) × Bool
offer queue bytes =
    if leb delta_queue_cap (length queue) then ([], false) else (queue ++ bytes ∷ [], true)

unfoldable pub clear : List (List ℕ) → List (List ℕ)
clear queue = []

unfoldable pub take : List (List ℕ) → List (List ℕ) × Option (List ℕ)
take [] = ([], none)
take (bytes ∷ queue) = (queue, some bytes)
