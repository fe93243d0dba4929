-- ===== src/Sensor/Assembler/Genuine.antt =====
-- crates/roboprotocol-core/src/sensor.rs: from the robot's frames, through their slices in any
-- order and number, to the frames that are emitted: their slots have the slices that were sent.
use robotele.Prelude.{
  ℕ, suc, ◌+◌, ◌<◌, ◌≤◌, ◌≡◌, ◌≢◌, refl, sym, ap, ◌∙◌, Bool, Option, none, some, List, [], ◌∷◌,
  arith, max, ltb, ◌==◌, ==_iff, Bool-cases, inl, inr, if◌then◌else◌, length, get_elem?, get_or,
}
use robotele.Prelude.Positions.{
  replicate, set, length-replicate, length-set, get_elem?-replicate, get_elem?-set_self,
  get_elem?-set_ne,
}
use robotele.Sensor.Slice.{SliceHeader}
use robotele.Sensor.Interleave.{AssembledFrame}
use robotele.Sensor.Interleave.Bytewise.{received}
use robotele.Sensor.Assembler.Arrived.{has}
use robotele.Sensor.Assembler.{FrameAssembler, Pending, fresh, fill_slot, new}
use robotele.Sensor.Assembler.History.{Rises, Call, run, AllSent, FrameLaw}
use robotele.Sensor.Assembler.Session.{session}

-- The header is one that `decode` accepts.
abbrev pub IsDecoded : SliceHeader → List ℕ → Type 0
IsDecoded h x = h.slice_index < h.slice_count

abbrev any_frame : FrameLaw
any_frame = record {
  Sent = IsDecoded;
  P = λ _. Unit;
  sent_in_bounds = λ h x lt. lt;
  fresh_holds = λ h x now lt. tt;
  fill_holds = λ p h x lt holds own len. tt;
}

-- Whatever decoded slices arrive, in whatever order and between whatever polls, an assembler never
-- panics; it emits frames in strictly increasing order, and keeps at most `max_pending` of them
-- (at least one) in flight.
pub run-Rises :
    (deadline_us max_pending : ℕ) (cs : List Call)
    → AllSent IsDecoded cs
    → (a : FrameAssembler) × (fs : List AssembledFrame) × (run cs (new deadline_us max_pending)
        ≡ some (a, fs))
      × Rises none fs a.last_emitted
      × (length a.pending ≤ max max_pending 1)
run-Rises deadline_us max_pending cs sent =
    let (a, fs, e, rises, all, bounded) = session any_frame deadline_us max_pending cs sent in
    (a, fs, e, rises, bounded)

no_slice :
    (n i : ℕ) (y : List ℕ) → get_elem? (replicate {A = Option (List ℕ)} n none) i ≢ some (some y)
no_slice n i y e = elim (Bool-cases (ltb i n)) [
  | inl q ↦ cc (rw (get_elem?-replicate {A = Option (List ℕ)} n i none, q) at e)
  | inr q ↦ cc (rw (get_elem?-replicate {A = Option (List ℕ)} n i none, q) at e)
]

-- Slots that are empty or have the slice of their place are those of a frame partly received.
pub slots-received :
    (k : ℕ) (arrives : ℕ → Bool) (slots : List (Option (List ℕ))) (ps : List (List ℕ))
    → length slots ≡ length ps
    → ((i : ℕ) → arrives (k + i) ≡ has slots i)
    → ((i : ℕ) (x : List ℕ) → get_elem? slots i ≡ some (some x) → x ≡ get_or ps i [])
    → slots ≡ received arrives k ps
slots-received k arrives [] [] len same h = refl
slots-received k arrives [] (p ∷ ps) len same h = absurd (omega arith)
slots-received k arrives (s ∷ slots) [] len same h = absurd (omega arith)
slots-received k arrives (s ∷ slots) (p ∷ ps) len same h =
    let here : arrives k ≡ has (s ∷ slots) 0 =
      ap arrives {x = k} {y = k + 0} (omega arith) ∙ same 0 in
    let rest : slots ≡ received arrives (k + 1) ps =
      slots-received (k + 1) arrives slots ps (omega arith)
        (λ i. ap arrives {x = k + 1 + i} {y = k + suc i} (omega arith) ∙ same (suc i))
        (λ i x e. h (suc i) x e) in
    first s here (h 0) rest
  where
    first :
        (s : Option (List ℕ))
        → arrives k ≡ has (s ∷ slots) 0
        → ((x : List ℕ) → some s ≡ some (some x) → x ≡ p)
        → slots ≡ received arrives (k + 1) ps
        → s ∷ slots ≡ (if arrives k then some p else none) ∷ received arrives (k + 1) ps
    first none here g rest = rw here (ap (λ t. none ∷ t) rest)
    first (some x) here g rest = rw here (cc (g x refl, rest))

module _ (payloads : ℕ → List (List ℕ)) where
  -- The slice is one of its frame's.
  abbrev pub IsSlice : SliceHeader → List ℕ → Type 0
  IsSlice h x =
      (h.slice_count ≡ length (payloads h.frame_seq))
      × (h.slice_index < h.slice_count)
      × (x ≡ get_or (payloads h.frame_seq) h.slice_index [])

  -- Every slot of the frame is empty, or has the slice of its place.
  abbrev pub Holds : AssembledFrame → Type 0
  Holds f =
      (length f.slices ≡ length (payloads f.frame_seq))
      × ((i : ℕ) (x : List ℕ)
          → get_elem? f.slices i ≡ some (some x)
          → x ≡ get_or (payloads f.frame_seq) i [])

  pub fresh-Holds :
      (h : SliceHeader) (x : List ℕ) (now : ℕ) → IsSlice h x → Holds (fresh h now).frame
  unfolding fresh
  fresh-Holds h x now sent =
      (length-replicate h.slice_count none ∙ sent.0, λ i y e. absurd (no_slice h.slice_count i y e))

  pub fill-Holds :
      (p : Pending) (h : SliceHeader) (x : List ℕ)
      → IsSlice h x
      → Holds p.frame
      → p.frame.frame_seq ≡ h.frame_seq
      → length p.frame.slices ≡ h.slice_count
      → Holds (fill_slot p h.slice_index x).frame
  unfolding fill_slot
  fill-Holds p h x sent holds own len = (
    length-set p.frame.slices h.slice_index (some x) ∙ holds.0,
    λ i y e. elim (Bool-cases (h.slice_index == i)) [
      | inl same ↦
          let at : h.slice_index ≡ i = (==_iff _ _).0 same in
          let mine : some (some x) ≡ some (some y) =
            sym (get_elem?-set_self p.frame.slices h.slice_index (some x) (rw len sent.1))
            ∙ ap (get_elem? (set p.frame.slices h.slice_index (some x))) at
            ∙ e in
          let same_x : y ≡ x = cc (mine) in rw (same_x, own, ← at) sent.2
      | inr other ↦ holds.1 i y (
          sym (
            get_elem?-set_ne p.frame.slices h.slice_index i (some x)
              (λ q. ground (arith, q, other)))
          ∙ e)
    ],
  )

  abbrev pub genuine : FrameLaw
  genuine = record {
    Sent = IsSlice;
    P = Holds;
    sent_in_bounds = λ h x sent. sent.1;
    fresh_holds = fresh-Holds;
    fill_holds = fill-Holds;
  }
