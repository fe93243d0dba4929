-- ===== src/Bulk/Receiver/Intact/Delivered.antt =====
-- The objects that `on_data` delivers.
use robotele.Prelude.{
  ℕ, ◌≤◌, ◌≡◌, refl, subst, Bool, true, Option, none, some, List, ◌++◌, arith, inl, inr, Bool-cases,
  Option-cases, length, drop, ==_iff,
}
use robotele.Prelude.Assoc.{nat_eq, lookup, remove}
use robotele.Prelude.Result.{Result, ok, err}
use robotele.Bulk.Header.{BulkHeader, BulkError, too_long, bulk_header_len, decode, key_eq}
use robotele.Bulk.Receiver.{
  BulkReceiver, BulkObject, Partial, on_header, finish, complete, close, is_too_long, read,
  needs_header, with_header, on_data, extend,
}
use robotele.Bulk.Receiver.Calls.{Call, replay}
use robotele.Bulk.Receiver.Intact.{
  Carries, Stream, headed, put_stream, put-Stream, headed-Stream, extend-Carries, extend-bytes,
  fed_by, replay-Intact,
}

-- An object is all that its stream carried, and as long as the stream's header says.
pub record Delivered (fed : List ℕ) (fin : Bool) (o : BulkObject) : Type 0 where
  pub ended : fin ≡ true
  pub header_read : decode fed ≡ ok o.header
  pub whole : o.bytes ≡ drop bulk_header_len fed
  pub size_kept : length o.bytes ≡ o.header.size

pub complete-output :
    (h : BulkHeader) (bytes : List ℕ) (r : BulkReceiver) (o : BulkObject)
    → (complete h bytes r).0 ≡ ok (some o)
    → (o ≡ record { header = h; bytes = bytes }) × (length bytes ≡ h.size)
unfolding complete
complete-output h bytes r o e = ground (arith, ==_iff (length bytes) h.size)

close-Delivered :
    (fed : List ℕ) (id : ℕ) (header : Option BulkHeader) (bytes : List ℕ) (r : BulkReceiver)
    (o : BulkObject)
    → Carries fed header bytes
    → (close id header bytes r).0 ≡ ok (some o)
    → Delivered fed true o
close-Delivered fed id none bytes r o c e = cc
close-Delivered fed id (some h) bytes r o (d, (same, long)) e =
    let (this, size) = complete-output h bytes (record r { streams = remove id r.streams }) o e in
    rw this (record { ended = refl; header_read = d; whole = same; size_kept = size })

carried_there :
    (fed : List ℕ) (dropped : Option (Unit {0})) (p : Partial)
    → Stream fed dropped (some p)
    → Carries fed p.header p.bytes
carried_there fed none p h = h
carried_there fed (some u) p h = elim h [ ]

abbrev pub HasNone : Result BulkError (Option BulkObject) → Type 0
HasNone (ok none) = Unit {0}
HasNone (ok (some o)) = ⊥
HasNone (err e) = Unit {0}

-- A result without an object is not one with an object.
pub no_object :
    {P : Type 0} (x : Result BulkError (Option BulkObject)) (o : BulkObject)
    → HasNone x
    → x ≡ ok (some o)
    → P
no_object x o n e = elim (subst HasNone e n) [ ]

finish-Delivered :
    (fed : List ℕ) (id : ℕ) (fin : Bool) (r : BulkReceiver) (o : BulkObject)
    → Stream fed (lookup id r.dropped) (lookup id r.streams)
    → (finish id fin r).0 ≡ ok (some o)
    → Delivered fed fin o
unfolding finish
finish-Delivered fed id fin r o h e = elim (Option-cases (lookup id r.streams)) [
  | inl q ↦ no_object (ok none) o tt (rw (q, finish) at e)
  | inr (p, q) ↦
      let c = carried_there fed (lookup id r.dropped) p (rw q at h) in
      elim (Bool-cases (is_too_long p.header p.bytes)) [
        | inl t ↦ no_object (err too_long) o tt (rw (q, finish, t) at e)
        | inr t ↦ elim (Bool-cases fin) [
          | inl f ↦ rw f (close-Delivered fed id p.header p.bytes r o c (rw (q, finish, t, f) at e))
          | inr f ↦ no_object (ok none) o tt (rw (q, finish, t, f) at e)
        ]
      ]
]

with_header-Delivered :
    (fed : List ℕ) (id : ℕ) (fin : Bool) (p : Partial) (r : BulkReceiver)
    (d : Result BulkError BulkHeader) (o : BulkObject)
    → lookup id r.dropped ≡ none
    → decode fed ≡ d
    → bulk_header_len ≤ length fed
    → (with_header id fin fed (put_stream id p r) d).0 ≡ ok (some o)
    → Delivered fed fin o
unfolding put_stream headed
with_header-Delivered fed id fin p r (err x) o c d long e = no_object (err x) o tt e
with_header-Delivered fed id fin p r (ok h) o c d long e =
    finish-Delivered fed id fin (on_header id h (put_stream id (headed h fed) (put_stream id p r)))
      o (headed-Stream fed id h (put_stream id p r) c d long) e

read-Delivered :
    (fed chunk : List ℕ) (id : ℕ) (fin : Bool) (r : BulkReceiver) (o : BulkObject)
    → lookup id r.dropped ≡ none
    → Stream fed none (lookup id r.streams)
    → (read id fin (extend (lookup id r.streams) chunk) r).0 ≡ ok (some o)
    → Delivered (fed ++ chunk) fin o
unfolding read put_stream
read-Delivered fed chunk id fin r o c h e =
    let p = extend (lookup id r.streams) chunk in
    let there = put_stream id p r in
    elim (Bool-cases (needs_header p.header p.bytes)) [
      | inr q ↦
          finish-Delivered (fed ++ chunk) id fin there o
            (put-Stream (fed ++ chunk) id p r c
              (extend-Carries fed chunk (lookup id r.streams) h q))
            (rw (q, read) at e)
      | inl q ↦
          let (all, long) = extend-bytes fed chunk (lookup id r.streams) h q in
          subst (λ w. Delivered w fin o) all
            (with_header-Delivered p.bytes id fin p r (decode p.bytes) o c refl long
              (rw (q, read) at e))
    ]

on_data-Delivered :
    (fed chunk : List ℕ) (id : ℕ) (fin : Bool) (r : BulkReceiver) (o : BulkObject)
    → Stream fed (lookup id r.dropped) (lookup id r.streams)
    → (on_data id chunk fin r).0 ≡ ok (some o)
    → Delivered (fed ++ chunk) fin o
unfolding on_data
on_data-Delivered fed chunk id fin r o h e = elim (Option-cases (lookup id r.dropped)) [
  | inl q ↦ read-Delivered fed chunk id fin r o q (rw q at h) (rw (q, on_data) at e)
  | inr (u, q) ↦ no_object (ok none) o tt (rw (q, on_data) at e)
]

-- Whatever calls came before, on this stream and on others, an object that the receiver delivers
-- comes at its stream's end, under the header that the stream's bytes begin with; its bytes are all
-- the bytes behind that header, in their order, and as many as the header says.
pub replay-Delivered :
    (calls : List Call) (id : ℕ) (chunk : List ℕ) (fin : Bool) (o : BulkObject)
    → (on_data id chunk fin (replay calls)).0 ≡ ok (some o)
    → Delivered (fed_by calls id ++ chunk) fin o
replay-Delivered calls id chunk fin o e =
    on_data-Delivered (fed_by calls id) chunk id fin (replay calls) o (replay-Intact calls id) e
