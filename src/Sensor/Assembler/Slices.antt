-- ===== src/Sensor/Assembler/Slices.antt =====
-- crates/roboprotocol-core/src/sensor.rs: what an arriving slice, and the clock, keep of an assembler.
use robotele.Prelude.{
  ℕ, suc, ◌≡◌, refl, ap, ◌∙◌, ◌⊎◌, inl, inr, false, Option, none, some, List, [], ◌∷◌, arith,
  lt→ltb, ◌==◌, ==_iff, Bool-cases, Option-cases, length, get_elem?,
}
use robotele.Prelude.Assoc.{nat_eq}
use robotele.Prelude.Positions.{replicate, get_elem?-replicate, get_elem?-none, length-replicate}
use robotele.Sensor.Slice.{SliceHeader}
use robotele.Sensor.Interleave.{AssembledFrame}
use robotele.Sensor.Assembler.{
  FrameAssembler, AssemblyStats, Pending, find, put, emit, ready_one, fill_slot, fresh, is_late,
  on_slot, on_entry, on_slice, one_duplicate, one_inconsistent, expired, then_ready, emit_each,
  poll,
}
use robotele.Sensor.Assembler.InFlight.{find-Every, find-put_self, length-put, length-put_found}
use robotele.Sensor.Assembler.History.{IsNewer, FrameLaw}
use robotele.Sensor.Assembler.Kept.{Kept, Called, emit-Called, settle-Called, put-Kept}

fresh_seq : (h : SliceHeader) (now : ℕ) → (fresh h now).frame.frame_seq ≡ h.frame_seq
unfolding fresh
fresh_seq h now = refl

fresh_slots :
    (h : SliceHeader) (now : ℕ) → (fresh h now).frame.slices ≡ replicate h.slice_count none
unfolding fresh
fresh_slots h now = refl

pub IsNewer-unless_late : (last : Option ℕ) (k : ℕ) → is_late last k ≡ false → IsNewer last k
IsNewer-unless_late none k e = tt
IsNewer-unless_late (some last) k e = ground (arith, e)

module _ (law : FrameLaw) where
  open law use {Sent, P, sent_in_bounds, fresh_holds, fill_holds}

  -- The entry of a slice: the one in flight, or a fresh one.
  abbrev Entered : FrameAssembler → SliceHeader → Pending → Type 0
  Entered a h p =
      (find h.frame_seq a.pending ≡ some p) ⊎ (p.frame.slices ≡ replicate h.slice_count none)

  -- A refused slice of a frame in flight.
  refused-Called :
      (bound : ℕ) (s : AssemblyStats) (a : FrameAssembler) (h : SliceHeader) (p : Pending)
      → Kept law bound a
      → a.max_pending ≡ bound
      → IsNewer a.last_emitted h.frame_seq
      → p.frame.frame_seq ≡ h.frame_seq
      → P p.frame
      → find h.frame_seq a.pending ≡ some p
      → Called law bound a.last_emitted
          (some (record a { pending = put h.frame_seq p a.pending; stats = s }, []))
  refused-Called bound s a h p kept is_max newer own holds found = (
    put-Kept law bound bound s a h.frame_seq p kept newer own holds
        (rw (length-put_found h.frame_seq p p a.pending kept.ascending found) kept.bounded),
    is_max,
    refl,
    tt,
  )

  on_slot-Called :
      (bound : ℕ) (a : FrameAssembler) (h : SliceHeader) (x : List ℕ) (p : Pending)
      (slot : Option (Option (List ℕ)))
      → Sent h x
      → Kept law bound a
      → a.max_pending ≡ bound
      → IsNewer a.last_emitted h.frame_seq
      → p.frame.frame_seq ≡ h.frame_seq
      → P p.frame
      → length p.frame.slices ≡ h.slice_count
      → Entered a h p
      → get_elem? p.frame.slices h.slice_index ≡ slot
      → Called law bound a.last_emitted (on_slot a h x p slot)
  unfolding on_slot
  on_slot-Called bound a h x p none sent kept is_max newer own holds len entered e =
      absurd (omega (arith, sent_in_bounds h x sent, get_elem?-none p.frame.slices h.slice_index e))
  on_slot-Called bound a h x p (some none) sent kept is_max newer own holds len entered e =
      let filled : Pending = fill_slot p h.slice_index x in
      settle-Called law bound (record a { pending = put h.frame_seq filled a.pending }) h.frame_seq
        filled
        (put-Kept law bound (suc bound) a.stats a h.frame_seq filled kept newer own
          (fill_holds p h x sent holds own len)
          (omega (arith, length-put h.frame_seq filled a.pending, kept.bounded)))
        is_max (find-put_self h.frame_seq filled a.pending)
  on_slot-Called bound a h x p (some (some y)) sent kept is_max newer own holds len (inr empty) e =
      let free : get_elem? (replicate {A = Option (List ℕ)} h.slice_count none) h.slice_index
          ≡ some none =
        rw (
          get_elem?-replicate {A = Option (List ℕ)} h.slice_count h.slice_index none,
          lt→ltb _ _ (sent_in_bounds h x sent),
        ) in
      cc (rw empty at e, free)
  on_slot-Called bound a h x p (some (some y)) sent kept is_max newer own holds len (inl found) e =
      refused-Called bound (one_duplicate a.stats) a h p kept is_max newer own holds found

  on_entry-Called :
      (bound : ℕ) (a : FrameAssembler) (h : SliceHeader) (x : List ℕ) (p : Pending)
      → Sent h x
      → Kept law bound a
      → a.max_pending ≡ bound
      → IsNewer a.last_emitted h.frame_seq
      → p.frame.frame_seq ≡ h.frame_seq
      → P p.frame
      → Entered a h p
      → Called law bound a.last_emitted (on_entry a h x p)
  unfolding on_entry
  on_entry-Called bound a h x p sent kept is_max newer own holds entered =
      elim (Bool-cases (length p.frame.slices == h.slice_count)) [
        | inl same ↦ rw same (
            on_slot-Called bound a h x p (get_elem? p.frame.slices h.slice_index) sent kept is_max
              newer own holds ((==_iff _ _).0 same) entered refl)
        | inr other ↦ elim entered [
          | inl found ↦ rw other (
              refused-Called bound (one_inconsistent a.stats) a h p kept is_max newer own holds
                found)
          | inr empty ↦
              absurd (ground (arith, ap length empty ∙ length-replicate h.slice_count none, other))
        ]
      ]

  -- A slice that was sent, at any time.
  pub on_slice-Called :
      (bound : ℕ) (a : FrameAssembler) (h : SliceHeader) (x : List ℕ) (now : ℕ)
      → Sent h x
      → Kept law bound a
      → a.max_pending ≡ bound
      → Called law bound a.last_emitted (on_slice a h x now)
  unfolding on_slice
  on_slice-Called bound a h x now sent kept is_max =
      elim (Bool-cases (is_late a.last_emitted h.frame_seq)) [
        | inl late ↦ rw late (
          record {
            ascending = kept.ascending;
            newer = kept.newer;
            own = kept.own;
            hold = kept.hold;
            bounded = kept.bounded;
          },
          is_max,
          refl,
          tt,
        )
        | inr timely ↦
            let newer : IsNewer a.last_emitted h.frame_seq =
              IsNewer-unless_late a.last_emitted h.frame_seq timely in
            elim (Option-cases (find h.frame_seq a.pending)) [
              | inr (p, found) ↦
                  rw (timely, found)
                    (on_entry-Called bound a h x p sent kept is_max newer
                      (find-Every (λ k p. p.frame.frame_seq ≡ k) h.frame_seq p a.pending kept.own
                        found)
                      (find-Every (λ _ p. P p.frame) h.frame_seq p a.pending kept.hold found)
                      (inl found))
              | inl absent ↦
                  rw (timely, absent)
                    (on_entry-Called bound a h x (fresh h now) sent kept is_max newer
                      (fresh_seq h now) (fresh_holds h x now sent) (inr (fresh_slots h now)))
            ]
      ]

  then_ready-Called :
      (bound : ℕ) (last : Option ℕ) (f : AssembledFrame)
      (r : Option (FrameAssembler × List AssembledFrame))
      → IsNewer last f.frame_seq
      → P f
      → Called law bound (some f.frame_seq) r
      → Called law bound last (then_ready f r)
  then_ready-Called bound last f none newer holds c = c
  then_ready-Called bound last f (some (a, fs)) newer holds (kept, is_max, rises, all) =
      (kept, is_max, (newer, rises), (holds, all))

  pub Kept-wider : (bound : ℕ) (a : FrameAssembler) → Kept law bound a → Kept law (suc bound) a
  Kept-wider bound a kept = record {
    ascending = kept.ascending;
    newer = kept.newer;
    own = kept.own;
    hold = kept.hold;
    bounded = omega (arith, kept.bounded);
  }

  -- Whichever keys are passed.
  emit_each-Called :
      (bound : ℕ) (ks : List ℕ) (a : FrameAssembler)
      → Kept law bound a
      → a.max_pending ≡ bound
      → Called law bound a.last_emitted (emit_each ks a)
  unfolding emit_each
  emit_each-Called bound [] a kept is_max = (kept, is_max, refl, tt)
  emit_each-Called bound (k ∷ ks) a kept is_max = elim (Option-cases (find k a.pending)) [
    | inl absent ↦ rw (emit_each, absent) (emit_each-Called bound ks a kept is_max)
    | inr (p, found) ↦
        let one : Called law bound a.last_emitted (ready_one (emit a k)) =
          emit-Called law bound a k p (Kept-wider bound a kept) is_max found in
        elim (Option-cases (emit a k)) [
          | inl panicked ↦ absurd (rw panicked at one)
          | inr ((a', f), e) ↦
              let (kept', is_max', (newer, same), (holds, _)) = rw e at one in
              rw (emit_each, found, e)
                (then_ready-Called bound a.last_emitted f (emit_each ks a') newer holds
                  (rw same (emit_each-Called bound ks a' kept' is_max')))
        ]
  ]

  pub poll-Called :
      (bound : ℕ) (a : FrameAssembler) (now : ℕ)
      → Kept law bound a
      → a.max_pending ≡ bound
      → Called law bound a.last_emitted (poll a now)
  unfolding poll
  poll-Called bound a now kept is_max =
      emit_each-Called bound (expired a.deadline_us now a.pending) a kept is_max
