-- ===== src/Sensor/Assembler/Arrived.antt =====
-- crates/roboprotocol-core/src/sensor.rs: the slices that arrived, and the slots that have one.
pub mod Calls
use robotele.Prelude.{
  ℕ, ◌<◌, ◌≤◌, ◌≡◌, refl, sym, ap, ◌∙◌, Bool, true, false, ◌||◌, ◌&&◌, ◌⊎◌, inl, inr, Option, none,
  some, List, [], ◌∷◌, arith, ltb, ◌==◌, ==_iff, Bool-cases, Option-cases, length, get_elem?,
}
use robotele.Prelude.Assoc.{nat_eq, Every}
use robotele.Prelude.Positions.{
  replicate, set, get_elem?-replicate, get_elem?-set_self, get_elem?-set_ne,
}
use robotele.Sensor.Slice.{SliceHeader}
use robotele.Sensor.Interleave.{AssembledFrame, is_complete}
use robotele.Sensor.Assembler.{
  FrameAssembler, AssemblyStats, Pending, find, put, emit, emit_found, emit_oldest, ready_one,
  settle, fill_slot, fresh, on_slot, one_duplicate,
}
use robotele.Sensor.Assembler.InFlight.{
  find-Every, find-emitted, find-put_self, find-put_ne, put-Every,
}
use robotele.Sensor.Assembler.History.{IsNewer, AllFrames, Call, slice_arrives, time_passes}

-- Whether a slice of a frame's number and an index is among the calls.
unfoldable pub arrived_in : List Call → ℕ → ℕ → Bool
arrived_in [] seq i = false
arrived_in (slice_arrives h x now ∷ cs) seq i =
    (h.frame_seq == seq && h.slice_index == i) || arrived_in cs seq i
arrived_in (time_passes now ∷ cs) seq i = arrived_in cs seq i

abbrev pub with_slice : (ℕ → ℕ → Bool) → SliceHeader → ℕ → ℕ → Bool
with_slice hist h seq i = (h.frame_seq == seq && h.slice_index == i) || hist seq i

abbrev pub filled : Option (Option (List ℕ)) → Bool
filled none = false
filled (some none) = false
filled (some (some x)) = true

abbrev pub has : List (Option (List ℕ)) → ℕ → Bool
has slices i = filled (get_elem? slices i)

abbrev pub slot : Option Pending → ℕ → Bool
slot none i = false
slot (some p) i = has p.frame.slices i

-- The slots of every frame that may still come have just the slices that arrived.
abbrev pub Tracks : (ℕ → ℕ → Bool) → FrameAssembler → Type 0
Tracks hist a = (k i : ℕ) → IsNewer a.last_emitted k → slot (find k a.pending) i ≡ hist k i

-- The slots of a frame are those of the slices that arrived.
abbrev pub Mask : (ℕ → ℕ → Bool) → AssembledFrame → Type 0
Mask hist f = (i : ℕ) → has f.slices i ≡ hist f.frame_seq i

abbrev pub Tracked : (ℕ → ℕ → Bool) → Option (FrameAssembler × List AssembledFrame) → Type 0
Tracked hist none = Unit {0}
Tracked hist (some (a, fs)) = Tracks hist a × AllFrames (Mask hist) fs

-- Every entry is of its key, and newer than the last emission.
abbrev pub Own : FrameAssembler → Type 0
Own a = Every (λ k p. p.frame.frame_seq ≡ k) a.pending

abbrev pub Newer : FrameAssembler → Type 0
Newer a = Every (λ k _. IsNewer a.last_emitted k) a.pending

IsNewer-still : (last : Option ℕ) (seq k : ℕ) → IsNewer last seq → seq < k → IsNewer last k
IsNewer-still none seq k h lt = tt
IsNewer-still (some last) seq k h lt = omega (arith, h, lt)

pub emit-Tracked :
    (hist : ℕ → ℕ → Bool) (a : FrameAssembler) (k : ℕ)
    → Own a
    → Newer a
    → Tracks hist a
    → Tracked hist (ready_one (emit a k))
unfolding emit emit_found
emit-Tracked hist a k own newer tracks = elim (Option-cases (find k a.pending)) [
  | inl absent ↦ rw absent tt
  | inr (p, found) ↦
      let mine : p.frame.frame_seq ≡ k =
        find-Every (λ k p. p.frame.frame_seq ≡ k) k p a.pending own found in
      let later : IsNewer a.last_emitted k =
        find-Every (λ k _. IsNewer a.last_emitted k) k p a.pending newer found in
      rw found (
        λ j i lt.
            ap (λ o. slot o i) (find-emitted k j a.pending lt)
            ∙ tracks j i (IsNewer-still a.last_emitted k j later lt),
        (
          λ i. ap (λ o. slot o i) (sym found) ∙ tracks k i later ∙ ap (λ s. hist s i) (sym mine),
          tt,
        ),
      )
]

emit_oldest-Tracked :
    (hist : ℕ → ℕ → Bool) (a : FrameAssembler) (m : List (ℕ × Pending))
    → Own a
    → Newer a
    → Tracks hist a
    → Tracked hist (ready_one (emit_oldest a m))
unfolding emit_oldest
emit_oldest-Tracked hist a [] own newer tracks = tt
emit_oldest-Tracked hist a ((k, p) ∷ m) own newer tracks = emit-Tracked hist a k own newer tracks

settle-Tracked :
    (hist : ℕ → ℕ → Bool) (a : FrameAssembler) (k : ℕ) (p : Pending)
    → Own a
    → Newer a
    → Tracks hist a
    → Tracked hist (settle a k p)
unfolding settle
settle-Tracked hist a k p own newer tracks = elim (Bool-cases (is_complete p.frame)) [
  | inl done ↦ rw done (emit-Tracked hist a k own newer tracks)
  | inr more ↦ elim (Bool-cases (ltb a.max_pending (length a.pending))) [
    | inl over ↦ rw (more, over) (emit_oldest-Tracked hist a a.pending own newer tracks)
    | inr within ↦ rw (more, within) (tracks, tt)
  ]
]

-- The entry of a slice, with the slots of all that arrived.
put-Tracks :
    (hist : ℕ → ℕ → Bool) (a : FrameAssembler) (s : AssemblyStats) (h : SliceHeader) (p : Pending)
    → Tracks hist a
    → ((i : ℕ) → has p.frame.slices i ≡ with_slice hist h h.frame_seq i)
    → Tracks (with_slice hist h) (record a { pending = put h.frame_seq p a.pending; stats = s })
put-Tracks hist a s h p tracks entry k i newer = elim (Bool-cases (h.frame_seq == k)) [
  | inl same ↦
      let at : h.frame_seq ≡ k = (==_iff _ _).0 same in
      rw (← at) (rw (find-put_self h.frame_seq p a.pending) (entry i))
  | inr other ↦ rw (find-put_ne h.frame_seq k p a.pending other, other) (tracks k i newer)
]

-- A slot that is filled.
filled_slots :
    (slices : List (Option (List ℕ))) (index : ℕ) (x : List ℕ) (before : ℕ → Bool)
    → index < length slices
    → ((i : ℕ) → has slices i ≡ before i)
    → (i : ℕ) → has (set slices index (some x)) i ≡ (index == i || before i)
filled_slots slices index x before lt h i = elim (Bool-cases (index == i)) [
  | inl same ↦
      let at : index ≡ i = (==_iff _ _).0 same in
      rw same (rw (← at) (rw (get_elem?-set_self slices index (some x) lt) refl))
  | inr other ↦
      rw other
        (ap filled (get_elem?-set_ne slices index i (some x) (λ q. ground (arith, q, other))) ∙ h i)
]

kept_slots :
    (slices : List (Option (List ℕ))) (index : ℕ) (x : List ℕ) (before : ℕ → Bool)
    → get_elem? slices index ≡ some (some x)
    → ((i : ℕ) → has slices i ≡ before i)
    → (i : ℕ) → has slices i ≡ (index == i || before i)
kept_slots slices index x before e h i = elim (Bool-cases (index == i)) [
  | inl same ↦
      let at : index ≡ i = (==_iff _ _).0 same in
      rw same (ap filled (ap (get_elem? slices) (sym at) ∙ e))
  | inr other ↦ rw other (h i)
]

own_key : (n : ℕ) → (n == n) ≡ true
own_key n = ground arith

pub on_slot-Tracked :
    (hist : ℕ → ℕ → Bool) (a : FrameAssembler) (h : SliceHeader) (x : List ℕ) (p : Pending)
    (o : Option (Option (List ℕ)))
    → Own a
    → Newer a
    → IsNewer a.last_emitted h.frame_seq
    → p.frame.frame_seq ≡ h.frame_seq
    → h.slice_index < length p.frame.slices
    → Tracks hist a
    → ((i : ℕ) → has p.frame.slices i ≡ hist h.frame_seq i)
    → get_elem? p.frame.slices h.slice_index ≡ o
    → Tracked (with_slice hist h) (on_slot a h x p o)
unfolding on_slot fill_slot
on_slot-Tracked hist a h x p none own newer timely mine lt tracks entry e = tt
on_slot-Tracked hist a h x p (some (some y)) own newer timely mine lt tracks entry e = (
  put-Tracks hist a (one_duplicate a.stats) h p tracks (λ i.
      rw (own_key h.frame_seq)
        (kept_slots p.frame.slices h.slice_index y (hist h.frame_seq) e entry i)),
  tt,
)
on_slot-Tracked hist a h x p (some none) own newer timely mine lt tracks entry e =
    let filled_p : Pending = fill_slot p h.slice_index x in
    settle-Tracked (with_slice hist h) (record a { pending = put h.frame_seq filled_p a.pending })
      h.frame_seq filled_p
      (put-Every (λ k p. p.frame.frame_seq ≡ k) h.frame_seq filled_p a.pending mine own)
      (put-Every (λ k _. IsNewer a.last_emitted k) h.frame_seq filled_p a.pending timely newer)
      (put-Tracks hist a a.stats h filled_p tracks (λ i.
        rw (own_key h.frame_seq)
          (filled_slots p.frame.slices h.slice_index x (hist h.frame_seq) lt entry i)))
