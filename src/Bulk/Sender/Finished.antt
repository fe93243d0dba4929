-- ===== src/Bulk/Sender/Finished.antt =====
-- crates/robot-edge/src/bulk_sender.rs: the objects that a pump counts as finished.
use mathlib.Core.List.{append_assoc, append-nil}
use robotele.Prelude.{
  ℕ, zero, suc, ◌+◌, ◌-◌, ◌≡◌, refl, sym, ap, ◌∙◌, subst, Bool, true, false, ◌&&◌, ◌⊎◌, inl, inr,
  none, some, List, [], ◌∷◌, ◌++◌, arith, ltb, ◌==◌, ==_iff, length, Bool-cases,
}
use robotele.Prelude.Bytes.{slice}
use robotele.Prelude.Assoc.{lookup}
use robotele.Bulk.Sender.{
  Connection, Answer, accepted, done, stream_limit, failed, Outgoing, Pump, send_loop, send_chunk,
  send_all, chunk_end, took, answered, enough, ends, pair_eq, beq_pair,
}

-- No key stands in the map twice.
abbrev pub Distinct : List ((ℕ × ℕ) × Outgoing) → Type 0
Distinct [] = Unit {0}
Distinct ((k, o) ∷ m) = (lookup k m ≡ none) × Distinct m

abbrev pub Absent : ℕ × ℕ → List (ℕ × ℕ) → Type 0
Absent k [] = Unit {0}
Absent k (j ∷ js) = (pair_eq.beq k j ≡ false) × Absent k js

pub beq_pair_sym : (x y : ℕ × ℕ) → beq_pair x y ≡ false → beq_pair y x ≡ false
beq_pair_sym (a, b) (c, d) h = ground (arith, h)

own_key : (k : ℕ × ℕ) → beq_pair k k ≡ true
own_key (a, b) = ground arith

module _ (connection : Connection) where
  open connection use {Conn, stream_send}

  -- The connection answers a send on the stream with an error.
  abbrev pub Refused : ℕ → Type 0
  Refused id =
      (c : Conn) × (bytes : List ℕ) × (fin : Bool) × ((stream_send c id bytes fin).1 ≡ failed)

  -- The connection accepts the bytes of the object from some place to the last one, with the mark
  -- that the stream ends.
  abbrev pub LastAccepted : ℕ → List ℕ → Type 0
  LastAccepted id bytes =
      (c : Conn) × (from : ℕ) × (n : ℕ) × ((stream_send c id (slice from (length bytes) bytes)
          true).1
        ≡ accepted n)
      × (from + n ≡ length bytes)

  abbrev pub Over : Outgoing → Type 0
  Over o = LastAccepted o.stream_id o.bytes ⊎ Refused o.stream_id

  -- The loop over an object finishes it once at most, and only if it is over.
  abbrev Outcome : List (ℕ × ℕ) → ℕ × ℕ → Pump connection × Outgoing → Type 0
  Outcome base key (p, o) = (p.finished ≡ base) ⊎ ((p.finished ≡ base ++ key ∷ []) × Over o)

  last_accepted :
      (c : Conn) (o : Outgoing) (left n : ℕ)
      → (stream_send c o.stream_id (slice o.offset (chunk_end o left) o.bytes) (ends o left)).1
        ≡ accepted n
      → (ends o left && o.offset + n == length o.bytes) ≡ true
      → LastAccepted o.stream_id o.bytes
  last_accepted c o left n e q =
      let at_end : ends o left ≡ true = ground (arith, q) in
      let all : o.offset + n ≡ length o.bytes = ground (arith, q) in
      let stop : chunk_end o left ≡ length o.bytes = (==_iff _ _).0 at_end in
      let sent : (stream_send c o.stream_id (slice o.offset (length o.bytes) o.bytes)
            (ends o left)).1
          ≡ accepted n =
        subst
          (λ e'.
            (stream_send c o.stream_id (slice o.offset e' o.bytes) (ends o left)).1 ≡ accepted n)
          stop e in
      (
        c,
        o.offset,
        n,
        subst
            (λ b.
              (stream_send c o.stream_id (slice o.offset (length o.bytes) o.bytes) b).1
              ≡ accepted n)
            at_end sent,
        all,
      )

  answered-Outcome :
      (base : List (ℕ × ℕ)) (key : ℕ × ℕ) (c : Conn) (o : Outgoing) (p : Pump connection)
      (a : Answer) (again : Pump connection × Outgoing → Pump connection × Outgoing)
      → p.finished ≡ base
      → (stream_send c o.stream_id (slice o.offset (chunk_end o p.left) o.bytes) (ends o p.left)).1
        ≡ a
      → ((x : Pump connection × Outgoing) → x.0.finished ≡ base → Outcome base key (again x))
      → Outcome base key (answered connection key o p a again)
  answered-Outcome base key c o p done again h e next = inl h
  answered-Outcome base key c o p stream_limit again h e next = inl h
  answered-Outcome base key c o p failed again h e next =
      inr (ap (λ ks. ks ++ key ∷ []) h, inr (c, _, _, e))
  answered-Outcome base key c o p (accepted n) again h e next =
      elim (Bool-cases (ends o p.left && o.offset + n == length o.bytes)) [
        | inl q ↦ rw q (inr (ap (λ ks. ks ++ key ∷ []) h, inl (last_accepted c o p.left n e q)))
        | inr q ↦ elim (Bool-cases (ltb n (chunk_end o p.left - o.offset))) [
          | inl s ↦ rw (q, s) (inl h)
          | inr s ↦ rw (q, s) (next (took connection n o p) h)
        ]
      ]

  send_loop-Outcome :
      (fuel : ℕ) (base : List (ℕ × ℕ)) (key : ℕ × ℕ) (x : Pump connection × Outgoing)
      → x.0.finished ≡ base
      → Outcome base key (send_loop connection fuel key x)
  unfolding send_loop
  send_loop-Outcome zero base key (p, o) h = inl h
  send_loop-Outcome (suc fuel) base key (p, o) h = elim (Bool-cases (p.left == 0)) [
    | inl q ↦ rw q (inl h)
    | inr q ↦ rw q (
        answered-Outcome base key p.conn o (record p { conn = (send_chunk connection o p).0 })
          (send_chunk connection o p).1 (send_loop connection fuel key) h refl
          (λ y hy. send_loop-Outcome fuel base key y hy))
  ]

  -- Different keys of objects that are over.
  abbrev pub Settled : List (ℕ × ℕ) → List ((ℕ × ℕ) × Outgoing) → Type 0
  Settled [] active = Unit {0}
  Settled (key ∷ keys) active =
      ((o : Outgoing) × (lookup key active ≡ some o) × Over o)
      × Absent key keys
      × Settled keys active

  pub Settled-other :
      (key : ℕ × ℕ) (keys : List (ℕ × ℕ)) (old new : List ((ℕ × ℕ) × Outgoing))
      → ((j : ℕ × ℕ) → pair_eq.beq key j ≡ false → lookup j new ≡ lookup j old)
      → Absent key keys
      → Settled keys old
      → Settled keys new
  Settled-other key [] old new same absent h = tt
  Settled-other key (j ∷ js) old new same absent ((o, found, over), apart, rest) =
      ((o, same j absent.0 ∙ found, over), apart, Settled-other key js old new same absent.1 rest)

  lookup_below :
      (key : ℕ × ℕ) (o : Outgoing) (m : List ((ℕ × ℕ) × Outgoing)) (j : ℕ × ℕ)
      → pair_eq.beq key j ≡ false
      → lookup j ((key, o) ∷ m) ≡ lookup j m
  unfolding lookup
  lookup_below key o m j h = rw h refl

  lookup_here :
      (key : ℕ × ℕ) (o : Outgoing) (m : List ((ℕ × ℕ) × Outgoing))
      → lookup key ((key, o) ∷ m) ≡ some o
  unfolding lookup
  lookup_here key o m = rw (own_key key) refl

  not_first :
      (k key : ℕ × ℕ) (o : Outgoing) (m : List ((ℕ × ℕ) × Outgoing))
      → lookup k ((key, o) ∷ m) ≡ none
      → (pair_eq.beq k key ≡ false) × (lookup k m ≡ none)
  unfolding lookup
  not_first k key o m h = elim (Bool-cases (pair_eq.beq key k)) [
    | inl e ↦ cc (rw e at h)
    | inr e ↦ (beq_pair_sym key k e, rw e at h)
  ]

  -- What a pump finishes.
  abbrev Finishes :
      List (ℕ × ℕ)
      → List ((ℕ × ℕ) × Outgoing)
      → Pump connection × List ((ℕ × ℕ) × Outgoing)
      → Type 0
  Finishes base m (p, active) =
      (keys : List (ℕ × ℕ)) × (p.finished ≡ base ++ keys)
      × Settled keys active
      × ((k : ℕ × ℕ) → lookup k m ≡ none → Absent k keys)

  first-Finishes :
      (base : List (ℕ × ℕ)) (key : ℕ × ℕ) (o : Outgoing) (m : List ((ℕ × ℕ) × Outgoing))
      (x : Pump connection × Outgoing)
      → Outcome base key x
      → Finishes base ((key, o) ∷ m) (x.0, (key, x.1) ∷ m)
  first-Finishes base key o m x (inl h) = ([], h ∙ sym (append-nil base), tt, λ k e. tt)
  first-Finishes base key o m x (inr (h, over)) = (
    key ∷ [],
    h,
    ((x.1, lookup_here key x.1 m, over), tt, tt),
    λ k e. ((not_first k key o m e).0, tt),
  )

  rest-Finishes :
      (base : List (ℕ × ℕ)) (key : ℕ × ℕ) (o : Outgoing) (m : List ((ℕ × ℕ) × Outgoing))
      (x : Pump connection × Outgoing) (y : Pump connection × List ((ℕ × ℕ) × Outgoing))
      → lookup key m ≡ none
      → Outcome base key x
      → Finishes x.0.finished m y
      → Finishes base ((key, o) ∷ m) (y.0, (key, x.1) ∷ y.1)
  rest-Finishes base key o m x y alone (inl h) (keys, f, settled, absent) = (
    keys,
    f ∙ ap (λ ks. ks ++ keys) h,
    Settled-other key keys y.1 ((key, x.1) ∷ y.1) (lookup_below key x.1 y.1) (absent key alone)
        settled,
    λ k e. absent k (not_first k key o m e).1,
  )
  rest-Finishes base key o m x y alone (inr (h, over)) (keys, f, settled, absent) = (
    key ∷ keys,
    f ∙ ap (λ ks. ks ++ keys) h ∙ append_assoc base (key ∷ []) keys,
    (
      (x.1, lookup_here key x.1 y.1, over),
      absent key alone,
      Settled-other key keys y.1 ((key, x.1) ∷ y.1) (lookup_below key x.1 y.1) (absent key alone)
          settled,
    ),
    λ k e. ((not_first k key o m e).0, absent k (not_first k key o m e).1),
  )

  pub send_all-Finishes :
      (m : List ((ℕ × ℕ) × Outgoing)) (p : Pump connection)
      → Distinct m
      → Finishes p.finished m (send_all connection m p)
  unfolding send_all
  send_all-Finishes [] p h = ([], sym (append-nil p.finished), tt, λ k e. tt)
  send_all-Finishes ((key, o) ∷ m) p h =
      let x = send_loop connection (enough o) key (p, o) in
      let one : Outcome p.finished key x =
        send_loop-Outcome (enough o) p.finished key (p, o) refl in
      elim (Bool-cases (x.0.left == 0)) [
        | inl q ↦ rw q (first-Finishes p.finished key o m x one)
        | inr q ↦ rw q (
            rest-Finishes p.finished key o m x (send_all connection m x.0) h.0 one
              (send_all-Finishes m x.0 h.1))
      ]
