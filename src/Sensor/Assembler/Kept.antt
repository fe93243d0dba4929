-- ===== src/Sensor/Assembler/Kept.antt =====
-- crates/roboprotocol-core/src/sensor.rs: what an emission keeps of an assembler.
use robotele.Prelude.{
  ℕ, suc, ◌<◌, ◌≤◌, ◌≡◌, refl, ap, inl, inr, Option, none, some, List, [], ◌∷◌, arith, ltb, ltb→lt,
  ltb_false→le, Bool-cases, length,
}
use robotele.Prelude.Assoc.{nat_eq, Every}
use robotele.Sensor.Interleave.{AssembledFrame, is_complete}
use robotele.Sensor.Assembler.{
  FrameAssembler, AssemblyStats, Pending, find, put, emit, emit_found, emit_oldest, ready_one,
  settle,
}
use robotele.Sensor.Assembler.InFlight.{
  Ascending, emitted-Every, emitted-Ascending, find_first, find-Every, put-Every, put-Ascending,
  length-emitted, newer_left,
}
use robotele.Sensor.Assembler.History.{IsNewer, Rises, AllFrames, FrameLaw}

module _ (law : FrameLaw) where
  open law use {Sent, P, sent_in_bounds, fresh_holds, fill_holds}

  -- The entries are of their keys, newer than the last emission and `P`, in ascending order, and at
  -- most `bound`.
  pub record Kept (bound : ℕ) (a : FrameAssembler) : Type 0 where
    pub ascending : Ascending a.pending
    pub newer : Every (λ k _. IsNewer a.last_emitted k) a.pending
    pub own : Every (λ k p. p.frame.frame_seq ≡ k) a.pending
    pub hold : Every (λ _ p. P p.frame) a.pending
    pub bounded : length a.pending ≤ bound

  -- A call did not panic, kept all this, and emitted newer and newer frames that are `P`.
  abbrev pub Called :
      (bound : ℕ) (last : Option ℕ) → Option (FrameAssembler × List AssembledFrame) → Type 0
  Called bound last none = ⊥
  Called bound last (some (a, fs)) =
      Kept bound a × (a.max_pending ≡ bound) × Rises last fs a.last_emitted × AllFrames P fs

  pub emit-Called :
      (bound : ℕ) (a : FrameAssembler) (k : ℕ) (p : Pending)
      → Kept (suc bound) a
      → a.max_pending ≡ bound
      → find k a.pending ≡ some p
      → Called bound a.last_emitted (ready_one (emit a k))
  unfolding emit emit_found
  emit-Called bound a k p kept is_max e =
      let own : p.frame.frame_seq ≡ k =
        find-Every (λ k p. p.frame.frame_seq ≡ k) k p a.pending kept.own e in
      rw e (
        record {
          ascending = emitted-Ascending k a.pending kept.ascending;
          newer = newer_left k a.pending;
          own = emitted-Every (λ k p. p.frame.frame_seq ≡ k) k a.pending kept.own;
          hold = emitted-Every (λ _ p. P p.frame) k a.pending kept.hold;
          bounded = omega (arith, length-emitted k p a.pending e, kept.bounded);
        },
        is_max,
        (
          rw own (find-Every (λ k _. IsNewer a.last_emitted k) k p a.pending kept.newer e),
          ap some own,
        ),
        (find-Every (λ _ p. P p.frame) k p a.pending kept.hold e, tt),
      )

  emit_oldest-Called :
      (bound : ℕ) (a : FrameAssembler) (m : List (ℕ × Pending))
      → Kept (suc bound) a
      → a.max_pending ≡ bound
      → a.pending ≡ m
      → bound < length m
      → Called bound a.last_emitted (ready_one (emit_oldest a m))
  unfolding emit_oldest
  emit_oldest-Called bound a [] kept is_max e lt = absurd (omega arith)
  emit_oldest-Called bound a ((k, p) ∷ m) kept is_max e lt =
      emit-Called bound a k p kept is_max (rw e (find_first k p m))

  pub settle-Called :
      (bound : ℕ) (a : FrameAssembler) (k : ℕ) (p : Pending)
      → Kept (suc bound) a
      → a.max_pending ≡ bound
      → find k a.pending ≡ some p
      → Called bound a.last_emitted (settle a k p)
  unfolding settle
  settle-Called bound a k p kept is_max e = elim (Bool-cases (is_complete p.frame)) [
    | inl done ↦ rw done (emit-Called bound a k p kept is_max e)
    | inr more ↦ elim (Bool-cases (ltb a.max_pending (length a.pending))) [
      | inl over ↦
          rw (more, over)
            (emit_oldest-Called bound a a.pending kept is_max refl
              (omega (arith, ltb→lt _ _ over, is_max)))
      | inr within ↦
          rw (more, within)
            (
              record {
                ascending = kept.ascending;
                newer = kept.newer;
                own = kept.own;
                hold = kept.hold;
                bounded = omega (arith, ltb_false→le _ _ within, is_max);
              },
              is_max,
              refl,
              tt,
            )
    ]
  ]

  pub put-Kept :
      (bound bound' : ℕ) (s : AssemblyStats) (a : FrameAssembler) (k : ℕ) (p : Pending)
      → Kept bound a
      → IsNewer a.last_emitted k
      → p.frame.frame_seq ≡ k
      → P p.frame
      → length (put k p a.pending) ≤ bound'
      → Kept bound' (record a { pending = put k p a.pending; stats = s })
  put-Kept bound bound' s a k p kept newer own holds fits = record {
    ascending = put-Ascending k p a.pending kept.ascending;
    newer = put-Every (λ k _. IsNewer a.last_emitted k) k p a.pending newer kept.newer;
    own = put-Every (λ k p. p.frame.frame_seq ≡ k) k p a.pending own kept.own;
    hold = put-Every (λ _ p. P p.frame) k p a.pending holds kept.hold;
    bounded = fits;
  }
