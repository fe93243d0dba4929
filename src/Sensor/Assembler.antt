-- ===== src/Sensor/Assembler.antt =====
-- crates/roboprotocol-core/src/sensor.rs: one sensor's frames assembled from received slices. The
-- instants and the deadline are microseconds; `none` is a panic of the source.
pub mod InFlight
pub mod History
pub mod Kept
pub mod Slices
pub mod Session
pub mod Arrived
pub mod Genuine
pub mod Along
use robotele.Prelude.{
  ℕ, zero, suc, ◌+◌, ◌-◌, max, Bool, true, false, not, Option, none, some, List, [], ◌∷◌, ◌++◌, ltb,
  leb, ◌==◌, if◌then◌else◌, length, get_elem?, keep,
}
use robotele.Prelude.Positions.{replicate, set}
use robotele.Sensor.Slice.{SliceHeader}
use robotele.Sensor.Interleave.{AssembledFrame, is_complete}

pub record AssemblyStats : Type 0 where
  pub frames_complete : ℕ
  pub frames_partial : ℕ
  pub frames_superseded : ℕ
  pub slices_late : ℕ
  pub slices_duplicate : ℕ
  pub slices_inconsistent : ℕ

pub record Pending : Type 0 where
  pub frame : AssembledFrame
  pub first_seen_us : ℕ

-- `pending` is a `BTreeMap`: its keys ascend.
pub record FrameAssembler : Type 0 where
  pub deadline_us : ℕ
  pub max_pending : ℕ
  pub pending : List (ℕ × Pending)
  pub last_emitted : Option ℕ
  pub stats : AssemblyStats

unfoldable pub new : (deadline_us max_pending : ℕ) → FrameAssembler
new deadline_us max_pending = record {
  deadline_us = deadline_us;
  max_pending = max max_pending 1;
  pending = [];
  last_emitted = none;
  stats = record {
    frames_complete = 0;
    frames_partial = 0;
    frames_superseded = 0;
    slices_late = 0;
    slices_duplicate = 0;
    slices_inconsistent = 0;
  };
}

unfoldable pub find : ℕ → List (ℕ × Pending) → Option Pending
find k [] = none
find k ((j, p) ∷ m) = if j == k then some p else find k m

-- The entry of `k`, written in its place in the order.
unfoldable pub put : ℕ → Pending → List (ℕ × Pending) → List (ℕ × Pending)
put k p [] = (k, p) ∷ []
put k p ((j, q) ∷ m) =
    let rest = put k p m in
    if k == j then (k, p) ∷ m else if ltb k j then (k, p) ∷ (j, q) ∷ m else (j, q) ∷ rest

-- `pending.remove`
unfoldable pub without : ℕ → List (ℕ × Pending) → List (ℕ × Pending)
without k m = keep (λ e. not (e.0 == k)) m

-- `pending.range(..k)`, and what the loop that removes it leaves.
unfoldable pub older : ℕ → List (ℕ × Pending) → List (ℕ × Pending)
older k m = keep (λ e. ltb e.0 k) m

unfoldable pub not_older : ℕ → List (ℕ × Pending) → List (ℕ × Pending)
not_older k m = keep (λ e. leb k e.0) m

unfoldable pub count_emitted : AssembledFrame → ℕ → AssemblyStats → AssemblyStats
count_emitted f superseded s = record s {
  frames_complete = if is_complete f then s.frames_complete + 1 else s.frames_complete;
  frames_partial = if is_complete f then s.frames_partial else s.frames_partial + 1;
  frames_superseded = s.frames_superseded + superseded;
}

unfoldable pub emit_found :
    FrameAssembler → ℕ → Option Pending → Option (FrameAssembler × AssembledFrame)
unfolding without older not_older count_emitted
emit_found a seq none = none
emit_found a seq (some p) = some (
  record a {
    pending = not_older seq (without seq a.pending);
    last_emitted = some seq;
    stats = count_emitted p.frame (length (older seq (without seq a.pending))) a.stats;
  },
  p.frame,
)

unfoldable pub emit : FrameAssembler → ℕ → Option (FrameAssembler × AssembledFrame)
unfolding emit_found find
emit a seq = emit_found a seq (find seq a.pending)

-- The one frame emitted, if the emission did not panic.
abbrev pub ready_one :
    Option (FrameAssembler × AssembledFrame) → Option (FrameAssembler × List AssembledFrame)
ready_one none = none
ready_one (some (a, f)) = some (a, f ∷ [])

abbrev pub is_late : Option ℕ → ℕ → Bool
is_late none seq = false
is_late (some last) seq = leb seq last

unfoldable pub fresh : SliceHeader → ℕ → Pending
unfolding replicate
fresh h now_us = record {
  frame = record {
    sensor_id = h.sensor_id;
    frame_seq = h.frame_seq;
    capture_time_us = h.capture_time_us;
    slices = replicate h.slice_count none;
  };
  first_seen_us = now_us;
}

abbrev pub or_else : Option Pending → Pending → Pending
or_else none p = p
or_else (some q) p = q

unfoldable pub fill_slot : Pending → ℕ → List ℕ → Pending
unfolding set
fill_slot p index payload =
    let f : AssembledFrame = p.frame in
    record p { frame = record f { slices = set f.slices index (some payload) } }

unfoldable pub one_late : AssemblyStats → AssemblyStats
one_late s = record s { slices_late = s.slices_late + 1 }

unfoldable pub one_duplicate : AssemblyStats → AssemblyStats
one_duplicate s = record s { slices_duplicate = s.slices_duplicate + 1 }

unfoldable pub one_inconsistent : AssemblyStats → AssemblyStats
one_inconsistent s = record s { slices_inconsistent = s.slices_inconsistent + 1 }

-- `pending.keys().next()`
unfoldable pub emit_oldest :
    FrameAssembler → List (ℕ × Pending) → Option (FrameAssembler × AssembledFrame)
unfolding emit
emit_oldest a [] = none
emit_oldest a ((k, p) ∷ m) = emit a k

-- The end of `on_slice`: emit the frame that is complete, or the oldest one beyond the bound.
unfoldable pub settle : FrameAssembler → ℕ → Pending → Option (FrameAssembler × List AssembledFrame)
unfolding emit emit_oldest
settle a seq p =
    if is_complete p.frame
    then ready_one (emit a seq)
    else if ltb a.max_pending (length a.pending)
    then ready_one (emit_oldest a a.pending)
    else some (a, [])

-- The slot of the slice: out of bounds is a panic.
unfoldable pub on_slot :
    FrameAssembler
    → SliceHeader
    → List ℕ
    → Pending
    → Option (Option (List ℕ))
    → Option (FrameAssembler × List AssembledFrame)
unfolding settle fill_slot put one_duplicate
on_slot a h payload p none = none
on_slot a h payload p (some (some x)) =
    some (record a { pending = put h.frame_seq p a.pending; stats = one_duplicate a.stats }, [])
on_slot a h payload p (some none) =
    let filled : Pending = fill_slot p h.slice_index payload in
    settle (record a { pending = put h.frame_seq filled a.pending }) h.frame_seq filled

-- A slice of a frame that is not late, `p` its entry or the fresh one.
unfoldable pub on_entry :
    FrameAssembler → SliceHeader → List ℕ → Pending → Option (FrameAssembler × List AssembledFrame)
unfolding on_slot one_inconsistent put
on_entry a h payload p =
    if length p.frame.slices == h.slice_count
    then on_slot a h payload p (get_elem? p.frame.slices h.slice_index)
    else some
        (record a { pending = put h.frame_seq p a.pending; stats = one_inconsistent a.stats }, [])

unfoldable pub on_slice :
    FrameAssembler → SliceHeader → List ℕ → ℕ → Option (FrameAssembler × List AssembledFrame)
unfolding on_entry fresh one_late find
on_slice a h payload now_us =
    if is_late a.last_emitted h.frame_seq
    then some (record a { stats = one_late a.stats }, [])
    else on_entry a h payload (or_else (find h.frame_seq a.pending) (fresh h now_us))

-- The keys of the frames whose deadline has passed.
unfoldable pub expired : (deadline_us now_us : ℕ) → List (ℕ × Pending) → List ℕ
expired deadline_us now_us [] = []
expired deadline_us now_us ((k, p) ∷ m) =
    let rest = expired deadline_us now_us m in
    if leb deadline_us (now_us - p.first_seen_us) then k ∷ rest else rest

abbrev pub then_ready :
    AssembledFrame
    → Option (FrameAssembler × List AssembledFrame)
    → Option (FrameAssembler × List AssembledFrame)
then_ready f none = none
then_ready f (some (a, fs)) = some (a, f ∷ fs)

-- The loop over the expired keys: one that an emission superseded is passed over.
unfoldable pub emit_each : List ℕ → FrameAssembler → Option (FrameAssembler × List AssembledFrame)
unfolding emit find
emit_each [] a = some (a, [])
emit_each (k ∷ ks) a = elim (find k a.pending) [
  | none ↦ emit_each ks a
  | some p ↦ elim (emit a k) [ none ↦ none | some (a', f) ↦ then_ready f (emit_each ks a') ]
]

unfoldable pub poll : FrameAssembler → ℕ → Option (FrameAssembler × List AssembledFrame)
unfolding emit_each expired
poll a now_us = emit_each (expired a.deadline_us now_us a.pending) a
