-- ===== src/Bulk/Sender/Distinct.antt =====
-- crates/robot-edge/src/bulk_sender.rs: one object of each kind and source in flight.
use robotele.Prelude.{
  ℕ, ◌≡◌, refl, sym, ap, ◌∙◌, false, Option, none, some, List, [], ◌∷◌, ◌++◌, arith, ◌==◌, inl, inr,
  Bool-cases, Option-cases,
}
use robotele.Prelude.Assoc.{lookup, remove, lookup-remove_self, lookup-remove_ne}
use robotele.Prelude.Ordered.{insert, lookup-insert_ne}
use robotele.Bulk.Header.{BulkHeader, encode}
use robotele.Bulk.Sender.{
  Connection, Outgoing, BulkSender, Pump, send_loop, send_all, begin, pump, enough, pair_eq,
  pair_below, beq_pair_iff, header_key, publish, start, settle, settle_all, allocate_stream,
}
use robotele.Bulk.Sender.Loop.{Kept, send_loop_kept}
use robotele.Bulk.Sender.Finished.{Distinct}

abbrev pub version : Option Outgoing → Option (List ℕ)
version none = none
version (some o) = some o.bytes

version-none : (o : Option Outgoing) → version o ≡ none → o ≡ none
version-none none h = refl
version-none (some o) h = cc

stays_absent :
    (k j : ℕ × ℕ) (m : List ((ℕ × ℕ) × Outgoing)) → lookup j m ≡ none → lookup j (remove k m) ≡ none
stays_absent k j m h = elim (Bool-cases (pair_eq.beq k j)) [
  | inl e ↦ ap (λ x. lookup x (remove k m)) (sym ((beq_pair_iff k j).0 e)) ∙ lookup-remove_self k m
  | inr e ↦ lookup-remove_ne k j m e ∙ h
]

pub remove-Distinct :
    (k : ℕ × ℕ) (m : List ((ℕ × ℕ) × Outgoing)) → Distinct m → Distinct (remove k m)
unfolding remove
remove-Distinct k [] h = tt
remove-Distinct k ((j, o) ∷ m) h = elim (Bool-cases (pair_eq.beq j k)) [
  | inl e ↦ rw e (remove-Distinct k m h.1)
  | inr e ↦ rw e (stays_absent k j m h.0, remove-Distinct k m h.1)
]

-- In place of the key's entry, or in front of a greater key, for a key that is not there.
pub insert-Distinct :
    (k : ℕ × ℕ) (o : Outgoing) (m : List ((ℕ × ℕ) × Outgoing))
    → lookup k m ≡ none
    → Distinct m
    → Distinct (insert k o m)
unfolding insert lookup
insert-Distinct k o [] absent h = (refl, tt)
insert-Distinct k o ((j, p) ∷ m) absent h = elim (Bool-cases (pair_eq.beq j k)) [
  | inl e ↦ cc (rw e at absent)
  | inr e ↦ elim (Bool-cases (pair_below.below k j)) [
    | inl b ↦ rw (e, b) (absent, h)
    | inr b ↦
        let other : pair_eq.beq k j ≡ false = ground (arith, e) in
        rw (e, b) (lookup-insert_ne k j o m other ∙ h.0, insert-Distinct k o m (rw e at absent) h.1)
  ]
]

module _ (connection : Connection) where
  open connection use {Conn}

  abbrev SameBytes : List ℕ → Pump connection × Outgoing → Type 0
  SameBytes b (p, o) = o.bytes ≡ b

  SameBytes-Kept : (b : List ℕ) → Kept connection (SameBytes b)
  SameBytes-Kept b = record {
    sent = λ p o c h. h;
    finished = λ key x h. h;
    taken = λ n p o most h. h;
  }

  pub version-send_all :
      (k : ℕ × ℕ) (m : List ((ℕ × ℕ) × Outgoing)) (p : Pump connection)
      → version (lookup k (send_all connection m p).1) ≡ version (lookup k m)
  unfolding send_all lookup
  version-send_all k [] p = refl
  version-send_all k ((key, o) ∷ m) p =
      let x = send_loop connection (enough o) key (p, o) in
      let same : x.1.bytes ≡ o.bytes =
        send_loop_kept connection (SameBytes o.bytes) (enough o) key (p, o) (SameBytes-Kept o.bytes)
          refl in
      elim (Bool-cases (x.0.left == 0)) [
        | inl q ↦ rw q (elim (Bool-cases (pair_eq.beq key k)) [
          | inl e ↦ rw e (ap some same)
          | inr e ↦ rw e refl
        ])
        | inr q ↦ rw q (elim (Bool-cases (pair_eq.beq key k)) [
          | inl e ↦ rw e (ap some same)
          | inr e ↦ rw e (version-send_all k m x.0)
        ])
      ]

  send_all-Distinct :
      (m : List ((ℕ × ℕ) × Outgoing)) (p : Pump connection)
      → Distinct m
      → Distinct (send_all connection m p).1
  unfolding send_all
  send_all-Distinct [] p h = tt
  send_all-Distinct ((key, o) ∷ m) p h =
      let x = send_loop connection (enough o) key (p, o) in
      elim (Bool-cases (x.0.left == 0)) [
        | inl q ↦ rw q h
        | inr q ↦ rw q (
          version-none _ (version-send_all key m x.0 ∙ ap version h.0),
          send_all-Distinct m x.0 h.1,
        )
      ]

  settle-Distinct :
      (c : Conn) (key : ℕ × ℕ) (s : BulkSender)
      → Distinct s.active
      → Distinct (settle connection c key s).1.active
  unfolding settle start allocate_stream
  settle-Distinct c key s h = elim (Option-cases (lookup key s.waiting)) [
    | inl q ↦ rw (q, settle) (remove-Distinct key s.active h)
    | inr (next, q) ↦
        rw (q, settle)
          (insert-Distinct key (record { stream_id = s.next_stream_id; bytes = next; offset = 0 })
            (remove key s.active) (lookup-remove_self key s.active)
            (remove-Distinct key s.active h))
  ]

  settle_all-Distinct :
      (keys : List (ℕ × ℕ)) (c : Conn) (s : BulkSender)
      → Distinct s.active
      → Distinct (settle_all connection keys (c, s)).1.active
  unfolding settle_all
  settle_all-Distinct [] c s h = h
  settle_all-Distinct (key ∷ keys) c s h =
      let x = settle connection c key s in
      settle_all-Distinct keys x.0 x.1 (settle-Distinct c key s h)

  pub pump-Distinct :
      (c : Conn) (budget : Option ℕ) (s : BulkSender)
      → Distinct s.active
      → Distinct (pump connection c budget s).0.1.active
  unfolding pump
  pump-Distinct c budget s h =
      let x = send_all connection s.active (begin connection c budget) in
      settle_all-Distinct x.0.finished x.0.conn (record s { active = x.1 })
        (send_all-Distinct s.active (begin connection c budget) h)

  pub publish-Distinct :
      (c : Conn) (h : BulkHeader) (payload : List ℕ) (s : BulkSender)
      → Distinct s.active
      → Distinct (publish connection c h payload s).1.active
  unfolding publish start allocate_stream
  publish-Distinct c h payload s d =
      let started : Outgoing = record {
        stream_id = s.next_stream_id;
        bytes = encode h ++ payload;
        offset = 0;
      } in
      elim (Option-cases (lookup (header_key h) s.active)) [
        | inl q ↦ rw (q, publish) (insert-Distinct (header_key h) started s.active q d)
        | inr (o, q) ↦ rw (q, publish) d
      ]
