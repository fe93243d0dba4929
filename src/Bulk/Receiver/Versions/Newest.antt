-- ===== src/Bulk/Receiver/Versions/Newest.antt =====
-- The versions that are delivered.
use robotele.Prelude.{
  ℕ, ◌≤◌, ◌≡◌, subst, Bool, false, Option, none, some, List, [], ◌∷◌, ◌++◌, arith, inl, inr,
  Bool-cases, Option-cases, ltb_false→le,
}
use robotele.Prelude.Assoc.{nat_eq, lookup, insert, remove, lookup-insert_self}
use robotele.Prelude.Result.{Result, ok, err}
use robotele.Bulk.Header.{
  BulkHeader, BulkKind, BulkError, short_header, too_long, decode, key, key_eq,
}
use robotele.Bulk.Receiver.{
  BulkReceiver, BulkObject, Partial, on_header, finish, complete, close, is_too_long, is_superseded,
  read, needs_header, with_header, on_data, extend,
}
use robotele.Bulk.Receiver.Streams.{on_header-Kept}
use robotele.Bulk.Receiver.Calls.{Call, bytes_read, apply, replay}
use robotele.Bulk.Receiver.Intact.{headed, put_stream}
use robotele.Bulk.Receiver.Intact.Delivered.{no_object, complete-output}
use robotele.Bulk.Receiver.Versions.{AtLeast, Grows, finish-latest, on_header-AtLeast}
use robotele.Bulk.Receiver.Versions.Noted.{
  HeadNoted, StreamNoted, Noted, Kept-headed, extend-HeadNoted, on_data-Grows, apply-Grows,
  replay-Noted,
}

-- The version is noted, and no later one of the same object is.
abbrev Latest : BulkObject → List ((BulkKind × ℕ) × ℕ) → Type 0
Latest o latest =
    AtLeast o.header.version (lookup (key o.header) latest)
    × (is_superseded o.header.version (lookup (key o.header) latest) ≡ false)

complete-current :
    (h : BulkHeader) (bytes : List ℕ) (r : BulkReceiver) (o : BulkObject)
    → (complete h bytes r).0 ≡ ok (some o)
    → is_superseded h.version (lookup (key h) r.latest) ≡ false
unfolding complete
complete-current h bytes r o e = ground arith

close-Latest :
    (id : ℕ) (header : Option BulkHeader) (bytes : List ℕ) (r : BulkReceiver) (o : BulkObject)
    → HeadNoted r.latest header
    → (close id header bytes r).0 ≡ ok (some o)
    → Latest o r.latest
close-Latest id none bytes r o n e = no_object (err short_header) o tt e
close-Latest id (some h) bytes r o n e =
    let ended = record r { streams = remove id r.streams } in
    rw ((complete-output h bytes ended o e).0) (n, complete-current h bytes ended o e)

finish-Latest :
    (id : ℕ) (fin : Bool) (r : BulkReceiver) (o : BulkObject)
    → StreamNoted r.latest (lookup id r.streams)
    → (finish id fin r).0 ≡ ok (some o)
    → Latest o (finish id fin r).1.latest
unfolding finish
finish-Latest id fin r o n e =
    rw (finish-latest id fin r) (elim (Option-cases (lookup id r.streams)) [
      | inl q ↦ no_object (ok none) o tt (rw (q, finish) at e)
      | inr (p, q) ↦ elim (Bool-cases (is_too_long p.header p.bytes)) [
        | inl t ↦ no_object (err too_long) o tt (rw (q, finish, t) at e)
        | inr t ↦ elim (Bool-cases fin) [
          | inl f ↦ close-Latest id p.header p.bytes r o (rw q at n) (rw (q, finish, t, f) at e)
          | inr f ↦ no_object (ok none) o tt (rw (q, finish, t, f) at e)
        ]
      ]
    ])

with_header-Latest :
    (id : ℕ) (fin : Bool) (bytes : List ℕ) (r : BulkReceiver) (d : Result BulkError BulkHeader)
    (o : BulkObject)
    → (with_header id fin bytes r d).0 ≡ ok (some o)
    → Latest o (with_header id fin bytes r d).1.latest
unfolding put_stream headed
with_header-Latest id fin bytes r (err x) o e = no_object (err x) o tt e
with_header-Latest id fin bytes r (ok h) o e =
    let there = put_stream id (headed h bytes) r in
    let after = on_header id h there in
    finish-Latest id fin after o
      (Kept-headed id h bytes r after (on_header-Kept id id h there) (on_header-AtLeast id h there))
      e

read-Latest :
    (id : ℕ) (fin : Bool) (p : Partial) (r : BulkReceiver) (o : BulkObject)
    → HeadNoted r.latest p.header
    → (read id fin p r).0 ≡ ok (some o)
    → Latest o (read id fin p r).1.latest
unfolding read
read-Latest id fin p r o n e =
    let there = record r { streams = insert id p r.streams } in
    elim (Bool-cases (needs_header p.header p.bytes)) [
      | inl q ↦
          rw (q, read)
            (with_header-Latest id fin p.bytes there (decode p.bytes) o (rw (q, read) at e))
      | inr q ↦
          rw (q, read)
            (finish-Latest id fin there o (rw (lookup-insert_self id p r.streams) n)
              (rw (q, read) at e))
    ]

on_data-Latest :
    (id : ℕ) (chunk : List ℕ) (fin : Bool) (r : BulkReceiver) (o : BulkObject)
    → Noted r
    → (on_data id chunk fin r).0 ≡ ok (some o)
    → Latest o (on_data id chunk fin r).1.latest
unfolding on_data
on_data-Latest id chunk fin r o n e = elim (Option-cases (lookup id r.dropped)) [
  | inr (u, q) ↦ no_object (ok none) o tt (rw (q, on_data) at e)
  | inl q ↦
      rw (q, on_data)
        (read-Latest id fin (extend (lookup id r.streams) chunk) r o
          (extend-HeadNoted r.latest (lookup id r.streams) chunk (n id)) (rw (q, on_data) at e))
]

replay-append-Grows :
    (later earlier : List Call) → Grows (replay earlier) (replay (later ++ earlier))
unfolding replay
replay-append-Grows [] earlier k v a = a
replay-append-Grows (c ∷ cs) earlier k v a =
    apply-Grows c (replay (cs ++ earlier)) k v (replay-append-Grows cs earlier k v a)

noted_le : (v w : ℕ) (o : Option ℕ) → AtLeast v o → is_superseded w o ≡ false → v ≤ w
noted_le v w none a s = elim a [ ]
noted_le v w (some x) a s = omega (arith, ltb_false→le w x s)

-- Whatever calls come before, between and on other streams, the versions of one object that the
-- receiver delivers never go back: what is delivered later is at least as new.
pub delivered-newer :
    (earlier later : List Call) (i j : ℕ) (x y : List ℕ) (fin end : Bool) (o p : BulkObject)
    → (on_data i x fin (replay earlier)).0 ≡ ok (some o)
    → (on_data j y end (replay (later ++ bytes_read i x fin ∷ earlier))).0 ≡ ok (some p)
    → key o.header ≡ key p.header
    → o.header.version ≤ p.header.version
unfolding replay apply
delivered-newer earlier later i j x y fin end o p first second same =
    let r = replay (later ++ bytes_read i x fin ∷ earlier) in
    let noted = (on_data-Latest i x fin (replay earlier) o (replay-Noted earlier) first).0 in
    let kept =
      replay-append-Grows later (bytes_read i x fin ∷ earlier) (key o.header) o.header.version
        noted in
    let still = on_data-Grows j y end r (key o.header) o.header.version kept in
    let current =
      (on_data-Latest j y end r p (replay-Noted (later ++ bytes_read i x fin ∷ earlier))
        second).1 in
    noted_le o.header.version p.header.version (lookup (key p.header) (on_data j y end r).1.latest)
      (subst (λ k. AtLeast o.header.version (lookup k (on_data j y end r).1.latest)) same still)
      current
