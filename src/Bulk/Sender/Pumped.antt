-- ===== src/Bulk/Sender/Pumped.antt =====
-- crates/robot-edge/src/bulk_sender.rs: the version in flight, the one that waits and the last one,
-- when a pump settles the keys that it finished.
use robotele.Prelude.{
  ℕ, ◌≡◌, refl, sym, ◌∙◌, ◌⊎◌, subst, false, Option, none, some, List, [], ◌∷◌, inl, inr,
  Bool-cases, Option-cases,
}
use robotele.Prelude.Assoc.{lookup, remove, lookup-remove_self, lookup-remove_ne}
use robotele.Prelude.Ordered.{lookup-insert_self, lookup-insert_ne}
use robotele.Bulk.Sender.{
  Connection, Outgoing, BulkSender, pair_eq, pair_below, beq_pair_iff, start, settle, settle_all,
  allocate_stream,
}
use robotele.Bulk.Sender.Finished.{Over, Absent, Settled, Settled-other, beq_pair_sym}
use robotele.Bulk.Sender.Distinct.{version}

-- The version in flight, the one that waits, and the one published last: a version waits only
-- behind another, and the newer of the two is the last. Without any, the last is over.
abbrev pub Newest : (sent waits last : Option (List ℕ)) (ended : Type 0) → Type 0
Newest none none last ended = (last ≡ none) ⊎ ended
Newest none (some d) last ended = ⊥
Newest (some b) none last ended = last ≡ some b
Newest (some b) (some d) last ended = last ≡ some d

abbrev pub Holds : ℕ × ℕ → BulkSender → Option (List ℕ) → Type 0 → Type 0
Holds k s last ended = Newest (version (lookup k s.active)) (lookup k s.waiting) last ended

pub later :
    (a w last : Option (List ℕ)) (old after : Type 0)
    → (old → after)
    → Newest a w last old
    → Newest a w last after
later none none last old after f (inl e) = inl e
later none none last old after f (inr h) = inr (f h)
later none (some d) last old after f h = h
later (some b) none last old after f h = h
later (some b) (some d) last old after f h = h

pub behind :
    (a : Option (List ℕ)) (next : List ℕ) (last : Option (List ℕ)) (ended : Type 0)
    → Newest a (some next) last ended
    → last ≡ some next
behind none next last ended h = elim h [ ]
behind (some b) next last ended h = h

pub alone :
    (w : Option (List ℕ)) (b : List ℕ) (last : Option (List ℕ)) (old after : Type 0)
    → Newest none w last old
    → Newest (some b) w (some b) after
alone none b last old after n = refl
alone (some d) b last old after n = elim n [ ]

module _ (connection : Connection) where
  open connection use {Conn}

  -- What holds of a version that is over.
  abbrev Ends : ℕ × ℕ → BulkSender → Option (List ℕ) → Type 0 → Type 0
  Ends k s last ended =
      (o : Outgoing) → lookup k s.active ≡ some o → last ≡ some o.bytes → Over connection o → ended

  settle_self :
      (c : Conn) (key : ℕ × ℕ) (s : BulkSender) (last : Option (List ℕ)) (ended : Type 0)
      (o : Outgoing)
      → lookup key s.active ≡ some o
      → Over connection o
      → Ends key s last ended
      → Holds key s last ended
      → Holds key (settle connection c key s).1 last ended
  unfolding settle start allocate_stream
  settle_self c key s last ended o found over ends h = elim (Option-cases (lookup key s.waiting)) [
    | inl q ↦
        let newest : last ≡ some o.bytes = rw (found, q) at h in
        rw (q, settle) (rw (lookup-remove_self key s.active, q) (inr (ends o found newest over)))
    | inr (next, q) ↦
        let started : Outgoing = record {
          stream_id = s.next_stream_id;
          bytes = next;
          offset = 0;
        } in
        rw
          (
            q,
            settle,
            lookup-insert_self key started (remove key s.active),
            lookup-remove_self key s.waiting,
          )
          (behind (version (lookup key s.active)) next last ended (rw q at h))
  ]

  -- Another key keeps its entries.
  settle-other :
      (c : Conn) (key k : ℕ × ℕ) (s : BulkSender)
      → pair_eq.beq key k ≡ false
      → (lookup k (settle connection c key s).1.active ≡ lookup k s.active)
        × (lookup k (settle connection c key s).1.waiting ≡ lookup k s.waiting)
  unfolding settle start allocate_stream
  settle-other c key k s n = elim (Option-cases (lookup key s.waiting)) [
    | inl q ↦ rw (q, settle) (lookup-remove_ne key k s.active n, refl)
    | inr (next, q) ↦
        let started : Outgoing = record {
          stream_id = s.next_stream_id;
          bytes = next;
          offset = 0;
        } in
        rw (q, settle)
          (
            lookup-insert_ne key k started (remove key s.active) n
                ∙ lookup-remove_ne key k s.active n,
            lookup-remove_ne key k s.waiting n,
          )
  ]

  settle_ne :
      (c : Conn) (key k : ℕ × ℕ) (s : BulkSender) (last : Option (List ℕ)) (ended : Type 0)
      → pair_eq.beq key k ≡ false
      → Holds k s last ended
      → Holds k (settle connection c key s).1 last ended
  settle_ne c key k s last ended n h =
      let (active, waiting) = settle-other c key k s n in rw (active, waiting) h

  -- The keys that are left, when the key is settled.
  Settled-after :
      (c : Conn) (key : ℕ × ℕ) (keys : List (ℕ × ℕ)) (s : BulkSender)
      → Absent key keys
      → Settled connection keys s.active
      → Settled connection keys (settle connection c key s).1.active
  Settled-after c key keys s absent settled =
      Settled-other connection key keys s.active (settle connection c key s).1.active
        (λ j n. (settle-other c key j s n).0) absent settled

  -- A key that is not among those that are left is not settled again.
  settle_absent :
      (keys : List (ℕ × ℕ)) (c : Conn) (k : ℕ × ℕ) (s : BulkSender) (last : Option (List ℕ))
      (ended : Type 0)
      → Absent k keys
      → Holds k s last ended
      → Holds k (settle_all connection keys (c, s)).1 last ended
  unfolding settle_all
  settle_absent [] c k s last ended absent h = h
  settle_absent (key ∷ keys) c k s last ended absent h =
      let x = settle connection c key s in
      settle_absent keys x.0 k x.1 last ended absent.1
        (settle_ne c key k s last ended (beq_pair_sym k key absent.0) h)

  pub settle_all-Holds :
      (keys : List (ℕ × ℕ)) (c : Conn) (k : ℕ × ℕ) (s : BulkSender) (last : Option (List ℕ))
      (ended : Type 0)
      → Settled connection keys s.active
      → Ends k s last ended
      → Holds k s last ended
      → Holds k (settle_all connection keys (c, s)).1 last ended
  unfolding settle_all
  settle_all-Holds [] c k s last ended settled ends h = h
  settle_all-Holds (key ∷ keys) c k s last ended ((o, found, over), absent, settled) ends h =
      let x = settle connection c key s in
      elim (Bool-cases (pair_eq.beq key k)) [
        | inl e ↦
            let same : k ≡ key = sym ((beq_pair_iff key k).0 e) in
            settle_absent keys x.0 k x.1 last ended (subst (λ y. Absent y keys) (sym same) absent) (
              subst (λ y. Holds y x.1 last ended) (sym same)
                (settle_self c key s last ended o found over
                  (subst (λ y. Ends y s last ended) same ends)
                  (subst (λ y. Holds y s last ended) same h)))
        | inr e ↦
            let (active, waiting) = settle-other c key k s e in
            settle_all-Holds keys x.0 k x.1 last ended (Settled-after c key keys s absent settled)
              (λ o' found' newest over'. ends o' (sym active ∙ found') newest over')
              (settle_ne c key k s last ended e h)
      ]
