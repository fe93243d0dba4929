-- ===== src/Bulk/Receiver/Versions/Noted.antt =====
-- Every header that was read is noted, and what is delivered is the latest version.
use robotele.Prelude.{
  ℕ, ◌==◌, subst, Bool, false, Option, none, some, List, [], ◌∷◌, inl, inr, Bool-cases,
  Option-cases, drop, ==_iff,
}
use robotele.Prelude.Assoc.{nat_eq, lookup, insert, lookup-insert_self}
use robotele.Prelude.Result.{Result, ok, err}
use robotele.Bulk.Header.{BulkHeader, BulkKind, BulkError, bulk_header_len, decode, key, key_eq}
use robotele.Bulk.Receiver.{
  BulkReceiver, Partial, new, reject, on_header, finish, read, needs_header, with_header, on_data,
  on_reset, extend,
}
use robotele.Bulk.Receiver.Streams.{
  Kept, on_header-Kept, finish-Kept, on_data-other, read-gone, drop_stream-gone, on_reset_self,
  on_reset_other,
}
use robotele.Bulk.Receiver.Calls.{Call, bytes_read, stream_reset, apply, replay}
use robotele.Bulk.Receiver.Intact.{headed, put_stream}
use robotele.Bulk.Receiver.Versions.{
  AtLeast, Grows, drop_stream-latest, finish-latest, on_header-Grows, on_header-AtLeast, same-Grows,
}

abbrev pub HeadNoted : List ((BulkKind × ℕ) × ℕ) → Option BulkHeader → Type 0
HeadNoted latest none = Unit {0}
HeadNoted latest (some h) = AtLeast h.version (lookup (key h) latest)

abbrev pub StreamNoted : List ((BulkKind × ℕ) × ℕ) → Option Partial → Type 0
StreamNoted latest none = Unit {0}
StreamNoted latest (some p) = HeadNoted latest p.header

-- Each open stream's version is noted.
abbrev pub Noted : BulkReceiver → Type 0
Noted r = (i : ℕ) → StreamNoted r.latest (lookup i r.streams)

head-Grows :
    (r s : BulkReceiver) (header : Option BulkHeader)
    → Grows r s
    → HeadNoted r.latest header
    → HeadNoted s.latest header
head-Grows r s none g n = tt
head-Grows r s (some h) g n = g (key h) h.version n

stream-Grows :
    (r s : BulkReceiver) (t : Option Partial)
    → Grows r s
    → StreamNoted r.latest t
    → StreamNoted s.latest t
stream-Grows r s none g n = tt
stream-Grows r s (some p) g n = head-Grows r s p.header g n

Kept-StreamNoted :
    (i : ℕ) (r s : BulkReceiver)
    → Kept i r s
    → Grows r s
    → StreamNoted r.latest (lookup i r.streams)
    → StreamNoted s.latest (lookup i s.streams)
Kept-StreamNoted i r s (inl (d, t)) g n = rw t (stream-Grows r s (lookup i r.streams) g n)
Kept-StreamNoted i r s (inr (d, t)) g n = rw t tt

with_header-Grows :
    (id : ℕ) (fin : Bool) (bytes : List ℕ) (r : BulkReceiver) (d : Result BulkError BulkHeader)
    → Grows r (with_header id fin bytes r d).1
unfolding reject
with_header-Grows id fin bytes r (err e) k v a =
    same-Grows r (reject id r) (drop_stream-latest id r) k v a
with_header-Grows id fin bytes r (ok h) k v a =
    let there = record r {
      streams =
          insert id (record { header = some h; bytes = drop bulk_header_len bytes }) r.streams;
    } in
    let after = on_header id h there in
    same-Grows after (finish id fin after).1 (finish-latest id fin after) k v
      (on_header-Grows id h there k v a)

read-Grows : (id : ℕ) (fin : Bool) (p : Partial) (r : BulkReceiver) → Grows r (read id fin p r).1
unfolding read
read-Grows id fin p r k v a =
    let there = record r { streams = insert id p r.streams } in
    elim (Bool-cases (needs_header p.header p.bytes)) [
      | inl q ↦ rw (q, read) (with_header-Grows id fin p.bytes there (decode p.bytes) k v a)
      | inr q ↦
          rw (q, read) (same-Grows there (finish id fin there).1 (finish-latest id fin there) k v a)
    ]

pub on_data-Grows :
    (id : ℕ) (bytes : List ℕ) (fin : Bool) (r : BulkReceiver) → Grows r (on_data id bytes fin r).1
unfolding on_data
on_data-Grows id bytes fin r k v a = elim (Option-cases (lookup id r.dropped)) [
  | inl e ↦ rw (e, on_data) (read-Grows id fin (extend (lookup id r.streams) bytes) r k v a)
  | inr (u, e) ↦ rw (e, on_data) (elim (Bool-cases fin) [ inl f ↦ rw f a | inr f ↦ rw f a ])
]

pub apply-Grows : (c : Call) (r : BulkReceiver) → Grows r (apply c r)
unfolding apply on_reset
apply-Grows (bytes_read id chunk fin) r k v a = on_data-Grows id chunk fin r k v a
apply-Grows (stream_reset id) r k v a = elim (Option-cases (lookup id r.streams)) [
  | inl e ↦ rw (e, on_reset) a
  | inr (p, e) ↦ rw (e, on_reset) a
]

-- The header that was just read is noted, whatever becomes of its stream.
pub Kept-headed :
    (id : ℕ) (h : BulkHeader) (bytes : List ℕ) (r s : BulkReceiver)
    → Kept id (put_stream id (headed h bytes) r) s
    → AtLeast h.version (lookup (key h) s.latest)
    → StreamNoted s.latest (lookup id s.streams)
unfolding put_stream headed
Kept-headed id h bytes r s (inr (d, t)) a = rw t tt
Kept-headed id h bytes r s (inl (d, t)) a =
    rw (t, lookup-insert_self id (headed h bytes) r.streams) a

with_header-StreamNoted :
    (id : ℕ) (bytes : List ℕ) (r : BulkReceiver) (d : Result BulkError BulkHeader)
    → let after = (with_header id false bytes r d).1 in
      StreamNoted after.latest (lookup id after.streams)
unfolding reject put_stream headed
with_header-StreamNoted id bytes r (err e) = rw (drop_stream-gone id r) tt
with_header-StreamNoted id bytes r (ok h) =
    let there = put_stream id (headed h bytes) r in
    let after = on_header id h there in
    Kept-StreamNoted id after (finish id false after).1 (finish-Kept id id after)
      (same-Grows after (finish id false after).1 (finish-latest id false after))
      (Kept-headed id h bytes r after (on_header-Kept id id h there) (on_header-AtLeast id h there))

pub extend-HeadNoted :
    (latest : List ((BulkKind × ℕ) × ℕ)) (t : Option Partial) (chunk : List ℕ)
    → StreamNoted latest t
    → HeadNoted latest (extend t chunk).header
extend-HeadNoted latest none chunk n = tt
extend-HeadNoted latest (some p) chunk n = n

read-StreamNoted :
    (id : ℕ) (p : Partial) (r : BulkReceiver)
    → HeadNoted r.latest p.header
    → let after = (read id false p r).1 in StreamNoted after.latest (lookup id after.streams)
unfolding read
read-StreamNoted id p r n =
    let there = record r { streams = insert id p r.streams } in
    elim (Bool-cases (needs_header p.header p.bytes)) [
      | inl q ↦ rw (q, read) (with_header-StreamNoted id p.bytes there (decode p.bytes))
      | inr q ↦
          rw (q, read)
            (Kept-StreamNoted id there (finish id false there).1 (finish-Kept id id there)
              (same-Grows there (finish id false there).1 (finish-latest id false there))
              (rw (lookup-insert_self id p r.streams) n))
    ]

own-StreamNoted :
    (id : ℕ) (chunk : List ℕ) (fin : Bool) (r : BulkReceiver)
    → StreamNoted r.latest (lookup id r.streams)
    → let after = (on_data id chunk fin r).1 in StreamNoted after.latest (lookup id after.streams)
unfolding on_data
own-StreamNoted id chunk fin r n = elim (Option-cases (lookup id r.dropped)) [
  | inr (u, e) ↦ rw (e, on_data) (elim (Bool-cases fin) [ inl f ↦ rw f n | inr f ↦ rw f n ])
  | inl e ↦
      rw (e, on_data)
        (elim (Bool-cases fin) [
          | inl f ↦ rw (f, read-gone id (extend (lookup id r.streams) chunk) r) tt
          | inr f ↦ rw f (
              read-StreamNoted id (extend (lookup id r.streams) chunk) r
                (extend-HeadNoted r.latest (lookup id r.streams) chunk n))
        ])
]

on_data-Noted :
    (id : ℕ) (chunk : List ℕ) (fin : Bool) (r : BulkReceiver)
    → Noted r
    → Noted (on_data id chunk fin r).1
on_data-Noted id chunk fin r n i =
    let after = (on_data id chunk fin r).1 in
    elim (Bool-cases (id == i)) [
      | inl q ↦
          subst (λ j. StreamNoted after.latest (lookup j after.streams)) ((==_iff id i).0 q)
            (own-StreamNoted id chunk fin r (n id))
      | inr q ↦
          Kept-StreamNoted i r after (on_data-other id i chunk fin r q)
            (on_data-Grows id chunk fin r) (n i)
    ]

on_reset-Noted : (id : ℕ) (r : BulkReceiver) → Noted r → Noted (on_reset id r)
unfolding apply
on_reset-Noted id r n i =
    let after = on_reset id r in
    elim (Bool-cases (id == i)) [
      | inl q ↦
          subst (λ j. StreamNoted after.latest (lookup j after.streams)) ((==_iff id i).0 q)
            (rw ((on_reset_self id r).1) tt)
      | inr q ↦
          Kept-StreamNoted i r after (on_reset_other id i r q) (apply-Grows (stream_reset id) r)
            (n i)
    ]

pub replay-Noted : (cs : List Call) → Noted (replay cs)
unfolding replay apply new lookup
replay-Noted [] = λ i. tt
replay-Noted (bytes_read id chunk fin ∷ cs) =
    on_data-Noted id chunk fin (replay cs) (replay-Noted cs)
replay-Noted (stream_reset id ∷ cs) = on_reset-Noted id (replay cs) (replay-Noted cs)
