-- ===== src/Bulk/Receiver/Streams.antt =====
-- What an operation of the receiver does to the other streams.
use robotele.Prelude.{
  ℕ, ◌≡◌, refl, ap, ◌∙◌, subst, drop, Bool, true, false, Option, none, some, List, [], ◌∷◌, ltb,
  ◌==◌, ◌⊎◌, inl, inr, Bool-cases, Option-cases, length, ==_iff,
}
use robotele.Prelude.Assoc.{
  nat_eq, lookup, insert, remove, lookup-insert_self, lookup-insert_ne, lookup-remove_self,
  lookup-remove_ne,
}
use robotele.Prelude.Result.{Result, ok, err}
use robotele.Bulk.Header.{BulkHeader, BulkError, bulk_header_len, decode, key, key_eq}
use robotele.Bulk.Receiver.{
  BulkReceiver, Partial, drop_stream, reject, drop_all, superseded_one, on_header, newest, finish,
  complete, close, is_too_long, stale, read, needs_header, with_header, on_data, on_reset,
  is_superseded, extend,
}

-- A stream is as before, or it was dropped.
abbrev pub Kept : ℕ → BulkReceiver → BulkReceiver → Type 0
Kept i r s =
    ((lookup i s.dropped ≡ lookup i r.dropped) × (lookup i s.streams ≡ lookup i r.streams))
    ⊎ ((lookup i s.dropped ≡ some tt) × (lookup i s.streams ≡ none))

pub Kept-trans : (i : ℕ) (r s t : BulkReceiver) → Kept i r s → Kept i s t → Kept i r t
Kept-trans i r s t (inl a) (inl b) = inl (b.0 ∙ a.0, b.1 ∙ a.1)
Kept-trans i r s t (inr a) (inl b) = inr (b.0 ∙ a.0, b.1 ∙ a.1)
Kept-trans i r s t a (inr b) = inr b

pub drop_stream-Kept : (id i : ℕ) (r : BulkReceiver) → Kept i r (drop_stream id r)
unfolding drop_stream
drop_stream-Kept id i r = elim (Option-cases (lookup id r.streams)) [
  | inl e ↦ rw (e, drop_stream) (inl (refl, refl))
  | inr (p, e) ↦
      rw (e, drop_stream)
        (elim (Bool-cases (id == i)) [
          | inl q ↦
              subst
                (λ j.
                  Kept j r
                    (record r { streams = remove id r.streams; dropped = insert id tt r.dropped }))
                ((==_iff id i).0 q)
                (inr (lookup-insert_self id tt r.dropped, lookup-remove_self id r.streams))
          | inr q ↦ inl (lookup-insert_ne id i tt r.dropped q, lookup-remove_ne id i r.streams q)
        ])
]

drop_all-Kept : (ids : List ℕ) (i : ℕ) (r : BulkReceiver) → Kept i r (drop_all ids r)
unfolding drop_all
drop_all-Kept [] i r = inl (refl, refl)
drop_all-Kept (id ∷ ids) i r =
    Kept-trans i r (superseded_one (drop_stream id r)) (drop_all (id ∷ ids) r)
      (drop_stream-Kept id i r) (drop_all-Kept ids i (superseded_one (drop_stream id r)))

pub on_header-Kept : (id i : ℕ) (h : BulkHeader) (r : BulkReceiver) → Kept i r (on_header id h r)
unfolding on_header
on_header-Kept id i h r =
    let noted = record r { latest = insert (key h) (newest h r) r.latest } in
    let rest = drop_all (stale id h r.streams) noted in
    let kept = drop_all-Kept (stale id h r.streams) i noted in
    elim (Bool-cases (ltb h.version (newest h r))) [
      | inl q ↦ rw q (
          Kept-trans i r rest (superseded_one (drop_stream id rest)) kept
            (drop_stream-Kept id i rest))
      | inr q ↦ rw q kept
    ]

-- The end of a call that does not end the stream.
pub finish-Kept : (id i : ℕ) (r : BulkReceiver) → Kept i r (finish id false r).1
unfolding finish reject
finish-Kept id i r = elim (Option-cases (lookup id r.streams)) [
  | inl e ↦ rw (e, finish) (inl (refl, refl))
  | inr (p, e) ↦
      rw (e, finish)
        (elim (Bool-cases (is_too_long p.header p.bytes)) [
          | inl q ↦ rw (q, finish) (drop_stream-Kept id i r)
          | inr q ↦ rw (q, finish) (inl (refl, refl))
        ])
]

complete-streams :
    (h : BulkHeader) (bytes : List ℕ) (r : BulkReceiver)
    → ((complete h bytes r).1.streams ≡ r.streams) × ((complete h bytes r).1.dropped ≡ r.dropped)
unfolding complete
complete-streams h bytes r = elim (Bool-cases (length bytes == h.size)) [
  | inr q ↦ rw (q, complete) (refl, refl)
  | inl q ↦
      rw (q, complete)
        (elim (Bool-cases (is_superseded h.version (lookup (key h) r.latest))) [
          | inl s ↦ rw (s, complete) (refl, refl)
          | inr s ↦ rw (s, complete) (refl, refl)
        ])
]

close-streams :
    (id : ℕ) (header : Option BulkHeader) (bytes : List ℕ) (r : BulkReceiver)
    → ((close id header bytes r).1.streams ≡ remove id r.streams)
      × ((close id header bytes r).1.dropped ≡ r.dropped)
close-streams id none bytes r = (refl, refl)
close-streams id (some h) bytes r =
    complete-streams h bytes (record r { streams = remove id r.streams })

close-Kept :
    (id i : ℕ) (header : Option BulkHeader) (bytes : List ℕ) (r : BulkReceiver)
    → id == i ≡ false
    → Kept i r (close id header bytes r).1
close-Kept id i header bytes r other =
    let (streams, dropped) = close-streams id header bytes r in
    inl (ap (lookup i) dropped, ap (lookup i) streams ∙ lookup-remove_ne id i r.streams other)

finish-other :
    (id i : ℕ) (fin : Bool) (r : BulkReceiver) → id == i ≡ false → Kept i r (finish id fin r).1
unfolding finish reject
finish-other id i false r other = finish-Kept id i r
finish-other id i true r other = elim (Option-cases (lookup id r.streams)) [
  | inl e ↦ rw (e, finish) (inl (refl, refl))
  | inr (p, e) ↦
      rw (e, finish)
        (elim (Bool-cases (is_too_long p.header p.bytes)) [
          | inl q ↦ rw (q, finish) (drop_stream-Kept id i r)
          | inr q ↦ rw (q, finish) (close-Kept id i p.header p.bytes r other)
        ])
]

-- A dropped stream is not there.
pub drop_stream-gone : (id : ℕ) (r : BulkReceiver) → lookup id (drop_stream id r).streams ≡ none
unfolding drop_stream
drop_stream-gone id r = elim (Option-cases (lookup id r.streams)) [
  | inl e ↦ rw (e, drop_stream) e
  | inr (p, e) ↦ rw (e, drop_stream) (lookup-remove_self id r.streams)
]

pub finish-gone : (id : ℕ) (r : BulkReceiver) → lookup id (finish id true r).1.streams ≡ none
unfolding finish reject
finish-gone id r = elim (Option-cases (lookup id r.streams)) [
  | inl e ↦ rw (e, finish) e
  | inr (p, e) ↦
      rw (e, finish)
        (elim (Bool-cases (is_too_long p.header p.bytes)) [
          | inl q ↦ rw (q, finish) (drop_stream-gone id r)
          | inr q ↦
              rw (q, finish)
                (ap (lookup id) (close-streams id p.header p.bytes r).0
                  ∙ lookup-remove_self id r.streams)
        ])
]

with_header-other :
    (id i : ℕ) (fin : Bool) (bytes : List ℕ) (r : BulkReceiver) (d : Result BulkError BulkHeader)
    → id == i ≡ false
    → Kept i r (with_header id fin bytes r d).1
unfolding reject
with_header-other id i fin bytes r (err e) other = drop_stream-Kept id i r
with_header-other id i fin bytes r (ok h) other =
    let p : Partial = record { header = some h; bytes = drop bulk_header_len bytes } in
    let there = record r { streams = insert id p r.streams } in
    Kept-trans i r there (with_header id fin bytes r (ok h)).1
      (inl (refl, lookup-insert_ne id i p r.streams other))
      (Kept-trans i there (on_header id h there) (with_header id fin bytes r (ok h)).1
        (on_header-Kept id i h there) (finish-other id i fin (on_header id h there) other))

read-other :
    (id i : ℕ) (fin : Bool) (p : Partial) (r : BulkReceiver)
    → id == i ≡ false
    → Kept i r (read id fin p r).1
unfolding read
read-other id i fin p r other =
    let there = record r { streams = insert id p r.streams } in
    let same : Kept i r there = inl (refl, lookup-insert_ne id i p r.streams other) in
    elim (Bool-cases (needs_header p.header p.bytes)) [
      | inl q ↦
          rw (q, read)
            (Kept-trans i r there (with_header id fin p.bytes there (decode p.bytes)).1 same
              (with_header-other id i fin p.bytes there (decode p.bytes) other))
      | inr q ↦
          rw (q, read)
            (Kept-trans i r there (finish id fin there).1 same (finish-other id i fin there other))
    ]

-- Data of one stream leaves another as it is, or drops it.
pub on_data-other :
    (id i : ℕ) (bytes : List ℕ) (fin : Bool) (r : BulkReceiver)
    → id == i ≡ false
    → Kept i r (on_data id bytes fin r).1
unfolding on_data
on_data-other id i bytes fin r other = elim (Option-cases (lookup id r.dropped)) [
  | inl e ↦ rw (e, on_data) (read-other id i fin (extend (lookup id r.streams) bytes) r other)
  | inr (u, e) ↦
      rw (e, on_data)
        (elim (Bool-cases fin) [
          | inl q ↦ rw q (inl (lookup-remove_ne id i r.dropped other, refl))
          | inr q ↦ rw q (inl (refl, refl))
        ])
]

-- Nothing is left of a stream that has ended.
with_header-gone :
    (id : ℕ) (bytes : List ℕ) (r : BulkReceiver) (d : Result BulkError BulkHeader)
    → lookup id (with_header id true bytes r d).1.streams ≡ none
unfolding reject
with_header-gone id bytes r (err e) = drop_stream-gone id r
with_header-gone id bytes r (ok h) = finish-gone id _

pub read-gone :
    (id : ℕ) (p : Partial) (r : BulkReceiver) → lookup id (read id true p r).1.streams ≡ none
unfolding read
read-gone id p r =
    let there = record r { streams = insert id p r.streams } in
    elim (Bool-cases (needs_header p.header p.bytes)) [
      | inl q ↦ rw (q, read) (with_header-gone id p.bytes there (decode p.bytes))
      | inr q ↦ rw (q, read) (finish-gone id there)
    ]

-- A reset stream is forgotten, and no other is touched.
pub on_reset_self :
    (id : ℕ) (r : BulkReceiver)
    → (lookup id (on_reset id r).dropped ≡ none) × (lookup id (on_reset id r).streams ≡ none)
unfolding on_reset
on_reset_self id r = elim (Option-cases (lookup id r.streams)) [
  | inl e ↦ rw (e, on_reset) (lookup-remove_self id r.dropped, e)
  | inr (p, e) ↦ rw (e, on_reset) (lookup-remove_self id r.dropped, lookup-remove_self id r.streams)
]

pub on_reset_other : (id i : ℕ) (r : BulkReceiver) → id == i ≡ false → Kept i r (on_reset id r)
unfolding on_reset
on_reset_other id i r q = elim (Option-cases (lookup id r.streams)) [
  | inl e ↦ rw (e, on_reset) (inl (lookup-remove_ne id i r.dropped q, refl))
  | inr (p, e) ↦
      rw (e, on_reset) (inl (lookup-remove_ne id i r.dropped q, lookup-remove_ne id i r.streams q))
]
