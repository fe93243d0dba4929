-- ===== src/Sensor/Assembler/History.antt =====
-- crates/roboprotocol-core/src/sensor.rs: what is done to an assembler, and what is said of the frames
-- that it emits.
use robotele.Prelude.{ℕ, ◌<◌, ◌≡◌, Option, none, some, List, [], ◌∷◌, ◌++◌, length}
use robotele.Prelude.Assoc.{nat_eq}
use robotele.Sensor.Slice.{SliceHeader}
use robotele.Sensor.Interleave.{AssembledFrame}
use robotele.Sensor.Assembler.{FrameAssembler, Pending, fill_slot, fresh, on_slice, poll}

-- `k` is newer than the frame emitted last, if any.
abbrev pub IsNewer : Option ℕ → ℕ → Type 0
IsNewer none k = Unit
IsNewer (some last) k = last < k

-- The frames of `fs`, emitted in turn from `last` to `last'`, are each newer than the one before.
abbrev pub Rises : Option ℕ → List AssembledFrame → Option ℕ → Type 0
Rises last [] last' = last ≡ last'
Rises last (f ∷ fs) last' = IsNewer last f.frame_seq × Rises (some f.frame_seq) fs last'

abbrev pub AllFrames : (AssembledFrame → Type 0) → List AssembledFrame → Type 0
AllFrames P [] = Unit
AllFrames P (f ∷ fs) = P f × AllFrames P fs

-- What is done to an assembler: a slice arrives, or the clock passes.
pub data Call : Type 0 where
  slice_arrives : SliceHeader → List ℕ → (now_us : ℕ) → Call
  time_passes : (now_us : ℕ) → Call

unfoldable pub call : Call → FrameAssembler → Option (FrameAssembler × List AssembledFrame)
call (slice_arrives h x now_us) a = on_slice a h x now_us
call (time_passes now_us) a = poll a now_us

abbrev pub then_after :
    List AssembledFrame
    → Option (FrameAssembler × List AssembledFrame)
    → Option (FrameAssembler × List AssembledFrame)
then_after fs none = none
then_after fs (some (a, gs)) = some (a, fs ++ gs)

-- The calls in turn, with the frames that they emit.
unfoldable pub run : List Call → FrameAssembler → Option (FrameAssembler × List AssembledFrame)
unfolding call
run [] a = some (a, [])
run (c ∷ cs) a = elim (call c a) [ none ↦ none | some (a', fs) ↦ then_after fs (run cs a') ]

abbrev pub AllSent : (SliceHeader → List ℕ → Type 0) → List Call → Type 0
AllSent Sent [] = Unit
AllSent Sent (slice_arrives h x now_us ∷ cs) = Sent h x × AllSent Sent cs
AllSent Sent (time_passes now_us ∷ cs) = AllSent Sent cs

-- A property of frames that a fresh entry has, and that a slice that was sent keeps.
pub record FrameLaw : Type 1 where
  pub Sent : SliceHeader → List ℕ → Type 0
  pub P : AssembledFrame → Type 0
  pub sent_in_bounds : (h : SliceHeader) (x : List ℕ) → Sent h x → h.slice_index < h.slice_count
  pub fresh_holds : (h : SliceHeader) (x : List ℕ) (now : ℕ) → Sent h x → P (fresh h now).frame
  pub fill_holds :
      (p : Pending) (h : SliceHeader) (x : List ℕ)
      → Sent h x
      → P p.frame
      → p.frame.frame_seq ≡ h.frame_seq
      → length p.frame.slices ≡ h.slice_count
      → P (fill_slot p h.slice_index x).frame
