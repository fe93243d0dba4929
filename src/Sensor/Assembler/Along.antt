-- ===== src/Sensor/Assembler/Along.antt =====
-- crates/roboprotocol-core/src/sensor.rs: the frames that an assembler emits, call by call, put back
-- in order.
use robotele.Prelude.{
  ℕ, ◌+◌, ◌/◌, ◌≡◌, refl, sym, ap, ◌∙◌, Bool, false, inl, inr, none, some, List, [], ◌∷◌, arith,
  max, Option-cases, length,
}
use robotele.Prelude.Result.{ok}
use robotele.Prelude.Positions.{replicate}
use robotele.Sensor.Interleave.{AssembledFrame, interleave, deinterleave, chunks_exact}
use robotele.Sensor.Interleave.Elements.{concat}
use robotele.Sensor.Interleave.Bytewise.{received, marked}
use robotele.Sensor.Interleave.Restored.{surviving, deinterleave-interleave}
use robotele.Sensor.Assembler.{FrameAssembler, find, new}
use robotele.Sensor.Assembler.InFlight.{find-Every}
use robotele.Sensor.Assembler.History.{AllFrames, Call, slice_arrives, time_passes, call, AllSent}
use robotele.Sensor.Assembler.Kept.{Kept}
use robotele.Sensor.Assembler.Session.{call-Called, new-Kept}
use robotele.Sensor.Assembler.Arrived.{Tracks, Tracked, Mask, arrived_in}
use robotele.Sensor.Assembler.Arrived.Calls.{on_slice-Tracked, poll-Tracked}
use robotele.Sensor.Assembler.Genuine.{IsSlice, Holds, genuine, slots-received}

module _ (elements : ℕ → List ℕ) (size limit : ℕ) (payloads : ℕ → List (List ℕ))
    (cut : (seq : ℕ) → interleave (elements seq) size limit ≡ ok (payloads seq)) where
  -- A frame, after the calls `calls`: its slots have the slices of its number that are among the
  -- calls and no others and, put back in order, it is the frame that was sent, less the elements of
  -- the others.
  abbrev pub IsRestored : List Call → AssembledFrame → Type 0
  IsRestored calls f =
      (f.slices ≡ received (arrived_in calls f.frame_seq) 0 (payloads f.frame_seq))
      × (deinterleave f size (length (elements f.frame_seq) / size) ≡ record {
        bytes = concat (
            surviving (length (payloads f.frame_seq)) (arrived_in calls f.frame_seq)
              (replicate size 0) 0 (chunks_exact size (elements f.frame_seq)));
        present =
            surviving (length (payloads f.frame_seq)) (arrived_in calls f.frame_seq) false 0
              (marked (chunks_exact size (elements f.frame_seq)));
      })

  -- The calls in turn do not panic, and each frame that one of them emits is restored after it;
  -- `before` are the calls before them, the newest first.
  abbrev pub RestoredAlong : (before calls : List Call) → FrameAssembler → Type 0
  RestoredAlong before [] a = Unit {0}
  RestoredAlong before (c ∷ calls) a = elim (call c a) as (λ _. Type 0) [
    | none ↦ ⊥
    | some (a', fs) ↦ AllFrames (IsRestored (c ∷ before)) fs × RestoredAlong (c ∷ before) calls a'
  ]

  Mask-IsRestored :
      (calls : List Call) (f : AssembledFrame)
      → Holds payloads f
      → Mask (arrived_in calls) f
      → IsRestored calls f
  unfolding deinterleave
  Mask-IsRestored calls f holds mask =
      let arrives : ℕ → Bool = arrived_in calls f.frame_seq in
      let slots : f.slices ≡ received arrives 0 (payloads f.frame_seq) =
        slots-received 0 arrives f.slices (payloads f.frame_seq) holds.0
          (λ i. ap arrives {x = 0 + i} {y = i} (omega arith) ∙ sym (mask i)) holds.1 in
      (
        slots,
        rw slots (
            deinterleave-interleave 0 0 0 arrives (elements f.frame_seq) size limit
              (payloads f.frame_seq) (cut f.frame_seq)),
      )

  all-IsRestored :
      (calls : List Call) (fs : List AssembledFrame)
      → AllFrames (Holds payloads) fs
      → AllFrames (Mask (arrived_in calls)) fs
      → AllFrames (IsRestored calls) fs
  all-IsRestored calls [] h m = tt
  all-IsRestored calls (f ∷ fs) h m =
      (Mask-IsRestored calls f h.0 m.0, all-IsRestored calls fs h.1 m.1)

  call-Tracked :
      (bound : ℕ) (before : List Call) (c : Call) (calls : List Call) (a : FrameAssembler)
      → AllSent (IsSlice payloads) (c ∷ calls)
      → Kept (genuine payloads) bound a
      → a.max_pending ≡ bound
      → Tracks (arrived_in before) a
      → Tracked (arrived_in (c ∷ before)) (call c a)
  unfolding call arrived_in
  call-Tracked bound before (slice_arrives h x now) calls a sent kept is_max tracks =
      on_slice-Tracked (arrived_in before) a h x now kept.own kept.newer sent.0.1
        (λ p found.
          let own : p.frame.frame_seq ≡ h.frame_seq =
            find-Every (λ k p. p.frame.frame_seq ≡ k) h.frame_seq p a.pending kept.own found in
          let holds : Holds payloads p.frame =
            find-Every (λ _ p. Holds payloads p.frame) h.frame_seq p a.pending kept.hold found in
          holds.0 ∙ ap (λ k. length (payloads k)) own ∙ sym sent.0.0)
        tracks
  call-Tracked bound before (time_passes now) calls a sent kept is_max tracks =
      poll-Tracked (genuine payloads) (arrived_in before) bound a now kept is_max tracks

  along :
      (bound : ℕ) (before calls : List Call) (a : FrameAssembler)
      → AllSent (IsSlice payloads) calls
      → Kept (genuine payloads) bound a
      → a.max_pending ≡ bound
      → Tracks (arrived_in before) a
      → RestoredAlong before calls a
  along bound before [] a sent kept is_max tracks = tt
  along bound before (c ∷ calls) a sent kept is_max tracks =
      let (one, later) = call-Called (genuine payloads) bound c calls a sent kept is_max in
      let seen : Tracked (arrived_in (c ∷ before)) (call c a) =
        call-Tracked bound before c calls a sent kept is_max tracks in
      elim (Option-cases (call c a)) [
        | inl panicked ↦ absurd (rw panicked at one)
        | inr ((a', fs), e) ↦
            let (kept', is_max', rises, all) = rw e at one in
            let (tracks', masks) = rw e at seen in
            rw (RestoredAlong, e)
              (
                all-IsRestored (c ∷ before) fs all masks,
                along bound (c ∷ before) calls a' later kept' is_max' tracks',
              )
      ]

  -- Where the slices that arrive are those that the frames were cut into, in whatever order, with
  -- whatever losses and repeats and between whatever polls, a new assembler never panics. Each frame
  -- that a call emits has just the slices of its number that arrived up to that call and, put back in
  -- order, it is the frame sent under its number: each element of a slice that arrived in its place
  -- and marked present, zeros marked absent for the others.
  pub run-IsRestored :
      (deadline_us max_pending : ℕ) (calls : List Call)
      → AllSent (IsSlice payloads) calls
      → RestoredAlong [] calls (new deadline_us max_pending)
  unfolding new arrived_in find
  run-IsRestored deadline_us max_pending calls sent =
      along (max max_pending 1) [] calls (new deadline_us max_pending) sent
        (new-Kept (genuine payloads) deadline_us max_pending) refl (λ k i newer. refl)
