-- ===== src/Sensor/Assembler/Arrived/Calls.antt =====
-- crates/roboprotocol-core/src/sensor.rs: what each call does to the slots.
use robotele.Prelude.{
  ℕ, ◌<◌, ◌≡◌, refl, sym, ap, ◌∙◌, Bool, true, false, inl, inr, Option, none, some, List, [], ◌∷◌,
  arith, ltb, ◌==◌, ==_iff, Bool-cases, Option-cases, length, get_elem?,
}
use robotele.Prelude.Positions.{get_elem?-replicate, length-replicate}
use robotele.Sensor.Slice.{SliceHeader}
use robotele.Sensor.Interleave.{AssembledFrame}
use robotele.Sensor.Assembler.{
  FrameAssembler, Pending, find, emit, ready_one, fresh, is_late, on_entry, on_slice, expired,
  then_ready, emit_each, poll,
}
use robotele.Sensor.Assembler.InFlight.{find-Every}
use robotele.Sensor.Assembler.History.{IsNewer, FrameLaw}
use robotele.Sensor.Assembler.Kept.{Kept, Called, emit-Called}
use robotele.Sensor.Assembler.Slices.{IsNewer-unless_late, Kept-wider}
use robotele.Sensor.Assembler.Arrived.{
  Tracks, Tracked, Mask, Own, Newer, with_slice, has, slot, filled, emit-Tracked, on_slot-Tracked,
}

on_entry-Tracked :
    (hist : ℕ → ℕ → Bool) (a : FrameAssembler) (h : SliceHeader) (x : List ℕ) (p : Pending)
    → Own a
    → Newer a
    → IsNewer a.last_emitted h.frame_seq
    → p.frame.frame_seq ≡ h.frame_seq
    → h.slice_index < h.slice_count
    → length p.frame.slices ≡ h.slice_count
    → Tracks hist a
    → ((i : ℕ) → has p.frame.slices i ≡ hist h.frame_seq i)
    → Tracked (with_slice hist h) (on_entry a h x p)
unfolding on_entry
on_entry-Tracked hist a h x p own newer timely mine lt len tracks entry =
    let same : length p.frame.slices == h.slice_count ≡ true = (==_iff _ _).1 len in
    rw same (
      on_slot-Tracked hist a h x p (get_elem? p.frame.slices h.slice_index) own newer timely mine
        (omega (arith, lt, len)) tracks entry refl)

-- A late slice is of a frame that cannot come any more.
late-Tracks :
    (hist : ℕ → ℕ → Bool) (last : Option ℕ) (h : SliceHeader) (k i : ℕ)
    → is_late last h.frame_seq ≡ true
    → IsNewer last k
    → with_slice hist h k i ≡ hist k i
late-Tracks hist none h k i late newer = cc
late-Tracks hist (some last) h k i late newer =
    let other : h.frame_seq == k ≡ false = ground (arith, late, newer) in rw other refl

fresh_empty : (h : SliceHeader) (now i : ℕ) → has (fresh h now).frame.slices i ≡ false
unfolding fresh
fresh_empty h now i = elim (Bool-cases (ltb i h.slice_count)) [
  | inl e ↦ ap filled (get_elem?-replicate {A = Option (List ℕ)} h.slice_count i none) ∙ rw e refl
  | inr e ↦ ap filled (get_elem?-replicate {A = Option (List ℕ)} h.slice_count i none) ∙ rw e refl
]

fresh_len : (h : SliceHeader) (now : ℕ) → length (fresh h now).frame.slices ≡ h.slice_count
unfolding fresh
fresh_len h now = length-replicate h.slice_count none

fresh_own : (h : SliceHeader) (now : ℕ) → (fresh h now).frame.frame_seq ≡ h.frame_seq
unfolding fresh
fresh_own h now = refl

-- A slice whose count is that of its frame's entry, if there is one.
pub on_slice-Tracked :
    (hist : ℕ → ℕ → Bool) (a : FrameAssembler) (h : SliceHeader) (x : List ℕ) (now : ℕ)
    → Own a
    → Newer a
    → h.slice_index < h.slice_count
    → ((p : Pending) → find h.frame_seq a.pending ≡ some p → length p.frame.slices ≡ h.slice_count)
    → Tracks hist a
    → Tracked (with_slice hist h) (on_slice a h x now)
unfolding on_slice
on_slice-Tracked hist a h x now own newer lt sized tracks =
    elim (Bool-cases (is_late a.last_emitted h.frame_seq)) [
      | inl late ↦ rw late (
        λ k i newer_k.
            tracks k i newer_k ∙ sym (late-Tracks hist a.last_emitted h k i late newer_k),
        tt,
      )
      | inr timely ↦
          let newest : IsNewer a.last_emitted h.frame_seq =
            IsNewer-unless_late a.last_emitted h.frame_seq timely in
          elim (Option-cases (find h.frame_seq a.pending)) [
            | inr (p, found) ↦
                rw (timely, found)
                  (on_entry-Tracked hist a h x p own newer newest
                    (find-Every (λ k p. p.frame.frame_seq ≡ k) h.frame_seq p a.pending own found) lt
                    (sized p found) tracks
                    (λ i. ap (λ o. slot o i) (sym found) ∙ tracks h.frame_seq i newest))
            | inl absent ↦
                rw (timely, absent)
                  (on_entry-Tracked hist a h x (fresh h now) own newer newest (fresh_own h now) lt
                    (fresh_len h now) tracks
                    (λ i.
                      fresh_empty h now i
                      ∙ ap (λ o. slot o i) (sym absent)
                      ∙ tracks h.frame_seq i newest))
          ]
    ]

then_ready-Tracked :
    (hist : ℕ → ℕ → Bool) (f : AssembledFrame) (r : Option (FrameAssembler × List AssembledFrame))
    → Mask hist f
    → Tracked hist r
    → Tracked hist (then_ready f r)
then_ready-Tracked hist f none m t = tt
then_ready-Tracked hist f (some (a, fs)) m t = (t.0, (m, t.1))

module _ (law : FrameLaw) where
  emit_each-Tracked :
      (hist : ℕ → ℕ → Bool) (bound : ℕ) (ks : List ℕ) (a : FrameAssembler)
      → Kept law bound a
      → a.max_pending ≡ bound
      → Tracks hist a
      → Tracked hist (emit_each ks a)
  unfolding emit_each
  emit_each-Tracked hist bound [] a kept is_max tracks = (tracks, tt)
  emit_each-Tracked hist bound (k ∷ ks) a kept is_max tracks =
      elim (Option-cases (find k a.pending)) [
        | inl absent ↦ rw (emit_each, absent) (emit_each-Tracked hist bound ks a kept is_max tracks)
        | inr (p, found) ↦
            let one : Called law bound a.last_emitted (ready_one (emit a k)) =
              emit-Called law bound a k p (Kept-wider law bound a kept) is_max found in
            let seen : Tracked hist (ready_one (emit a k)) =
              emit-Tracked hist a k kept.own kept.newer tracks in
            elim (Option-cases (emit a k)) [
              | inl panicked ↦ rw (emit_each, found, panicked) tt
              | inr ((a', f), e) ↦
                  let (kept', is_max', rises, all) = rw e at one in
                  let (tracks', (mask, _)) = rw e at seen in
                  rw (emit_each, found, e)
                    (then_ready-Tracked hist f (emit_each ks a') mask
                      (emit_each-Tracked hist bound ks a' kept' is_max' tracks'))
            ]
      ]

  pub poll-Tracked :
      (hist : ℕ → ℕ → Bool) (bound : ℕ) (a : FrameAssembler) (now : ℕ)
      → Kept law bound a
      → a.max_pending ≡ bound
      → Tracks hist a
      → Tracked hist (poll a now)
  unfolding poll
  poll-Tracked hist bound a now kept is_max tracks =
      emit_each-Tracked hist bound (expired a.deadline_us now a.pending) a kept is_max tracks
