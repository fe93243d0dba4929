-- ===== src/Sensor/Assembler/Session.antt =====
-- crates/roboprotocol-core/src/sensor.rs: what all the calls of a new assembler keep.
use robotele.Prelude.{
  ℕ, ◌≤◌, ◌≡◌, refl, inl, inr, Option, none, some, List, [], ◌∷◌, ◌++◌, arith, Option-cases, length,
  max,
}
use robotele.Prelude.Assoc.{nat_eq}
use robotele.Sensor.Interleave.{AssembledFrame}
use robotele.Sensor.Assembler.{FrameAssembler, new}
use robotele.Sensor.Assembler.History.{
  Rises, AllFrames, Call, slice_arrives, time_passes, call, then_after, run, AllSent, FrameLaw,
}
use robotele.Sensor.Assembler.Kept.{Kept, Called}
use robotele.Sensor.Assembler.Slices.{on_slice-Called, poll-Called}

module _ (law : FrameLaw) where
  open law use {Sent, P, sent_in_bounds, fresh_holds, fill_holds}

  pub call-Called :
      (bound : ℕ) (c : Call) (cs : List Call) (a : FrameAssembler)
      → AllSent Sent (c ∷ cs)
      → Kept law bound a
      → a.max_pending ≡ bound
      → Called law bound a.last_emitted (call c a) × AllSent Sent cs
  unfolding call
  call-Called bound (slice_arrives h x now) cs a sent kept is_max =
      (on_slice-Called law bound a h x now sent.0 kept is_max, sent.1)
  call-Called bound (time_passes now) cs a sent kept is_max =
      (poll-Called law bound a now kept is_max, sent)

  Rises-append :
      (last : Option ℕ) (fs gs : List AssembledFrame) (mid end' : Option ℕ)
      → Rises last fs mid
      → Rises mid gs end'
      → Rises last (fs ++ gs) end'
  Rises-append last [] gs mid end' h k = rw h k
  Rises-append last (f ∷ fs) gs mid end' h k =
      (h.0, Rises-append (some f.frame_seq) fs gs mid end' h.1 k)

  AllFrames-append :
      (fs gs : List AssembledFrame) → AllFrames P fs → AllFrames P gs → AllFrames P (fs ++ gs)
  AllFrames-append [] gs h k = k
  AllFrames-append (f ∷ fs) gs h k = (h.0, AllFrames-append fs gs h.1 k)

  then_after-Called :
      (bound : ℕ) (last mid : Option ℕ) (fs : List AssembledFrame)
      (r : Option (FrameAssembler × List AssembledFrame))
      → Rises last fs mid
      → AllFrames P fs
      → Called law bound mid r
      → Called law bound last (then_after fs r)
  then_after-Called bound last mid fs none h k c = c
  then_after-Called bound last mid fs (some (a, gs)) h k (kept, is_max, rises, all) = (
    kept,
    is_max,
    Rises-append last fs gs mid a.last_emitted h rises,
    AllFrames-append fs gs k all,
  )

  pub run-Called :
      (bound : ℕ) (cs : List Call) (a : FrameAssembler)
      → AllSent Sent cs
      → Kept law bound a
      → a.max_pending ≡ bound
      → Called law bound a.last_emitted (run cs a)
  unfolding run
  run-Called bound [] a sent kept is_max = (kept, is_max, refl, tt)
  run-Called bound (c ∷ cs) a sent kept is_max =
      let (one, later) = call-Called bound c cs a sent kept is_max in
      elim (Option-cases (call c a)) [
        | inl panicked ↦ absurd (rw panicked at one)
        | inr ((a', fs), e) ↦
            let (kept', is_max', rises, all) = rw e at one in
            rw (run, e)
              (then_after-Called bound a.last_emitted a'.last_emitted fs (run cs a') rises all
                (run-Called bound cs a' later kept' is_max'))
      ]

  pub new-Kept :
      (deadline_us max_pending : ℕ) → Kept law (max max_pending 1) (new deadline_us max_pending)
  unfolding new
  new-Kept deadline_us max_pending = record {
    ascending = tt;
    newer = tt;
    own = tt;
    hold = tt;
    bounded = omega arith;
  }

  -- All the calls of a new assembler.
  pub session :
      (deadline_us max_pending : ℕ) (cs : List Call)
      → AllSent Sent cs
      → (a : FrameAssembler) × (fs : List AssembledFrame) × (run cs (new deadline_us max_pending)
          ≡ some (a, fs))
        × Rises none fs a.last_emitted
        × AllFrames P fs
        × (length a.pending ≤ max max_pending 1)
  unfolding new
  session deadline_us max_pending cs sent =
      let all : Called law (max max_pending 1) none (run cs (new deadline_us max_pending)) =
        run-Called (max max_pending 1) cs (new deadline_us max_pending) sent
          (new-Kept deadline_us max_pending) refl in
      elim (Option-cases (run cs (new deadline_us max_pending))) [
        | inl panicked ↦ absurd (rw panicked at all)
        | inr ((a, fs), e) ↦
            let (kept, is_max, rises, hold) = rw e at all in (a, fs, e, rises, hold, kept.bounded)
      ]
