-- ===== src/Bulk/Receiver/Intact.antt =====
-- What is delivered is what its stream carried.
pub mod Delivered
use robotele.Prelude.{
  ℕ, ◌≡◌, ◌≤◌, ◌<◌, ◌-◌, refl, ap, ◌∙◌, sym, subst, Bool, true, false, not, Option, none, some,
  List, [], ◌∷◌, ◌++◌, arith, ltb, leb, ◌==◌, if◌then◌else◌, inl, inr, Bool-cases, Option-cases,
  length, drop, ==_iff, lt→ltb, ltb→lt, leb→le, length-append, drop-append_le,
}
use robotele.Prelude.Assoc.{
  nat_eq, lookup, insert, remove, lookup-insert_self, lookup-remove_self, lookup-remove_ne,
}
use robotele.Prelude.Result.{Result, ok, err}
use robotele.Bulk.Header.{BulkHeader, BulkError, bulk_header_len, decode, key, key_eq}
use robotele.Bulk.Header.Wire.{decode-append}
use robotele.Bulk.Receiver.Calls.{Call, bytes_read, stream_reset, apply, replay}
use robotele.Bulk.Receiver.{
  BulkReceiver, BulkObject, Partial, new, drop_stream, reject, on_header, finish, complete, close,
  is_too_long, is_superseded, read, needs_header, with_header, on_data, on_reset, extend,
}
use robotele.Bulk.Receiver.Streams.{
  Kept, Kept-trans, drop_stream-Kept, on_header-Kept, finish-Kept, on_data-other, read-gone,
  on_reset_self, on_reset_other,
}

-- What is kept of a stream that carried `fed` so far.
abbrev pub Carries : List ℕ → Option BulkHeader → List ℕ → Type 0
Carries fed none bytes = (bytes ≡ fed) × (length fed < bulk_header_len)
Carries fed (some h) bytes =
    (decode fed ≡ ok h) × ((bytes ≡ drop bulk_header_len fed) × (bulk_header_len ≤ length fed))

abbrev pub Stream : List ℕ → Option (Unit {0}) → Option Partial → Type 0
Stream fed none none = fed ≡ []
Stream fed none (some p) = Carries fed p.header p.bytes
Stream fed (some u) none = Unit {0}
Stream fed (some u) (some p) = ⊥

abbrev pub Intact : (ℕ → List ℕ) → BulkReceiver → Type 0
Intact fed r = (i : ℕ) → Stream (fed i) (lookup i r.dropped) (lookup i r.streams)

Kept-Stream :
    (fed : List ℕ) (i : ℕ) (r s : BulkReceiver)
    → Kept i r s
    → Stream fed (lookup i r.dropped) (lookup i r.streams)
    → Stream fed (lookup i s.dropped) (lookup i s.streams)
Kept-Stream fed i r s (inl (d, t)) h = rw (d, t) h
Kept-Stream fed i r s (inr (d, t)) h = rw (d, t) tt

ended-Stream : (dropped : Option (Unit {0})) → Stream [] dropped none
ended-Stream none = refl
ended-Stream (some u) = tt

-- The bytes kept of a stream after more of them, as long as its header is not due.
grow-Carries :
    (fed chunk : List ℕ) (header : Option BulkHeader) (bytes : List ℕ)
    → Carries fed header bytes
    → needs_header header (bytes ++ chunk) ≡ false
    → Carries (fed ++ chunk) header (bytes ++ chunk)
grow-Carries fed chunk none bytes (same, short) q = (
  rw same refl,
  ground (arith, ap length same, length-append fed chunk, length-append bytes chunk),
)
grow-Carries fed chunk (some h) bytes (read, (same, long)) q = (
  decode-append fed chunk long ∙ read,
  (
    ap (λ b. b ++ chunk) same ∙ sym (drop-append_le bulk_header_len fed chunk long),
    omega (arith, length-append fed chunk),
  ),
)

pub extend-Carries :
    (fed chunk : List ℕ) (t : Option Partial)
    → Stream fed none t
    → needs_header (extend t chunk).header (extend t chunk).bytes ≡ false
    → Carries (fed ++ chunk) (extend t chunk).header (extend t chunk).bytes
extend-Carries fed chunk none h q = rw h (refl, ground arith)
extend-Carries fed chunk (some p) h q = grow-Carries fed chunk p.header p.bytes h q

-- When the header is due, all the bytes are there.
due-bytes :
    (fed chunk : List ℕ) (header : Option BulkHeader) (bytes : List ℕ)
    → Carries fed header bytes
    → needs_header header (bytes ++ chunk) ≡ true
    → (bytes ++ chunk ≡ fed ++ chunk) × (bulk_header_len ≤ length (bytes ++ chunk))
due-bytes fed chunk none bytes (same, short) q = (ap (λ b. b ++ chunk) same, leb→le _ _ q)
due-bytes fed chunk (some h) bytes c q = let absurd_test : false ≡ true = q in cc

pub extend-bytes :
    (fed chunk : List ℕ) (t : Option Partial)
    → Stream fed none t
    → needs_header (extend t chunk).header (extend t chunk).bytes ≡ true
    → ((extend t chunk).bytes ≡ fed ++ chunk) × (bulk_header_len ≤ length (extend t chunk).bytes)
extend-bytes fed chunk none h q = (rw h refl, leb→le _ _ q)
extend-bytes fed chunk (some p) h q = due-bytes fed chunk p.header p.bytes h q

-- With the header read, the rest of its stream carries the object.
unfoldable pub headed : BulkHeader → List ℕ → Partial
headed h bytes = record { header = some h; bytes = drop bulk_header_len bytes }

unfoldable pub put_stream : ℕ → Partial → BulkReceiver → BulkReceiver
put_stream id p r = record r { streams = insert id p r.streams }

pub put-Stream :
    (fed : List ℕ) (id : ℕ) (p : Partial) (r : BulkReceiver)
    → lookup id r.dropped ≡ none
    → Carries fed p.header p.bytes
    → Stream fed (lookup id (put_stream id p r).dropped) (lookup id (put_stream id p r).streams)
unfolding put_stream
put-Stream fed id p r o c = rw (o, lookup-insert_self id p r.streams) c

pub headed-Stream :
    (fed : List ℕ) (id : ℕ) (h : BulkHeader) (r : BulkReceiver)
    → lookup id r.dropped ≡ none
    → decode fed ≡ ok h
    → bulk_header_len ≤ length fed
    → let there = on_header id h (put_stream id (headed h fed) r) in
      Stream fed (lookup id there.dropped) (lookup id there.streams)
unfolding headed
headed-Stream fed id h r o d long =
    let there = put_stream id (headed h fed) r in
    Kept-Stream fed id there (on_header id h there) (on_header-Kept id id h there)
      (put-Stream fed id (headed h fed) r o (d, (refl, long)))

rejected-Stream :
    (fed : List ℕ) (id : ℕ) (p : Partial) (r : BulkReceiver)
    → let there = reject id (put_stream id p r) in
      Stream fed (lookup id there.dropped) (lookup id there.streams)
unfolding reject drop_stream put_stream
rejected-Stream fed id p r =
    rw
      (
        lookup-insert_self id p r.streams,
        drop_stream,
        lookup-insert_self id tt r.dropped,
        lookup-remove_self id (insert id p r.streams),
      )
      tt

with_header-Stream :
    (fed : List ℕ) (id : ℕ) (p : Partial) (r : BulkReceiver) (d : Result BulkError BulkHeader)
    → lookup id r.dropped ≡ none
    → decode fed ≡ d
    → bulk_header_len ≤ length fed
    → let after = (with_header id false fed (put_stream id p r) d).1 in
      Stream fed (lookup id after.dropped) (lookup id after.streams)
unfolding put_stream headed
with_header-Stream fed id p r (err e) o d long = rejected-Stream fed id p r
with_header-Stream fed id p r (ok h) o d long =
    let there = on_header id h (put_stream id (headed h fed) (put_stream id p r)) in
    Kept-Stream fed id there (finish id false there).1 (finish-Kept id id there)
      (headed-Stream fed id h (put_stream id p r) o d long)

-- A call that does not end the stream leaves the stream with what it carried.
read-Stream :
    (fed chunk : List ℕ) (id : ℕ) (r : BulkReceiver)
    → lookup id r.dropped ≡ none
    → Stream fed none (lookup id r.streams)
    → let after = (read id false (extend (lookup id r.streams) chunk) r).1 in
      Stream (fed ++ chunk) (lookup id after.dropped) (lookup id after.streams)
unfolding read put_stream
read-Stream fed chunk id r o h =
    let p = extend (lookup id r.streams) chunk in
    let there = put_stream id p r in
    elim (Bool-cases (needs_header p.header p.bytes)) [
      | inr q ↦
          rw (q, read)
            (Kept-Stream (fed ++ chunk) id there (finish id false there).1 (finish-Kept id id there)
              (put-Stream (fed ++ chunk) id p r o
                (extend-Carries fed chunk (lookup id r.streams) h q)))
      | inl q ↦
          let (all, long) = extend-bytes fed chunk (lookup id r.streams) h q in
          rw (q, read, sym all) (with_header-Stream p.bytes id p r (decode p.bytes) o refl long)
    ]

-- What each open stream has carried, after bytes of one stream.
unfoldable pub carried : ℕ → List ℕ → Bool → (ℕ → List ℕ) → ℕ → List ℕ
carried id chunk fin fed i = if id == i then (if fin then [] else fed i ++ chunk) else fed i

open-Stream :
    (fed chunk : List ℕ) (id : ℕ) (fin : Bool) (r : BulkReceiver)
    → lookup id r.dropped ≡ none
    → Stream fed none (lookup id r.streams)
    → let after = (read id fin (extend (lookup id r.streams) chunk) r).1 in
      Stream (if fin then [] else fed ++ chunk) (lookup id after.dropped) (lookup id after.streams)
open-Stream fed chunk id false r o h = read-Stream fed chunk id r o h
open-Stream fed chunk id true r o h =
    rw (read-gone id (extend (lookup id r.streams) chunk) r) (ended-Stream _)

gone_if_dropped : (fed : List ℕ) (t : Option Partial) → Stream fed (some tt) t → t ≡ none
gone_if_dropped fed none h = refl
gone_if_dropped fed (some p) h = elim h [ ]

dropped-Stream :
    (fed chunk : List ℕ) (id : ℕ) (fin : Bool) (r : BulkReceiver)
    → lookup id r.dropped ≡ some tt
    → lookup id r.streams ≡ none
    → let after = if fin then record r { dropped = remove id r.dropped } else r in
      Stream (if fin then [] else fed ++ chunk) (lookup id after.dropped) (lookup id after.streams)
dropped-Stream fed chunk id false r o h = rw (o, h) tt
dropped-Stream fed chunk id true r o h = rw (lookup-remove_self id r.dropped, h) refl

own-Stream :
    (fed chunk : List ℕ) (id : ℕ) (fin : Bool) (r : BulkReceiver)
    → Stream fed (lookup id r.dropped) (lookup id r.streams)
    → let after = (on_data id chunk fin r).1 in
      Stream (if fin then [] else fed ++ chunk) (lookup id after.dropped) (lookup id after.streams)
unfolding on_data
own-Stream fed chunk id fin r h = elim (Option-cases (lookup id r.dropped)) [
  | inl e ↦ rw (e, on_data) (open-Stream fed chunk id fin r e (rw e at h))
  | inr (u, e) ↦
      rw (e, on_data)
        (dropped-Stream fed chunk id fin r e
          (gone_if_dropped fed (lookup id r.streams) (rw e at h)))
]

on_data-Intact :
    (fed : ℕ → List ℕ) (id : ℕ) (chunk : List ℕ) (fin : Bool) (r : BulkReceiver)
    → Intact fed r
    → Intact (carried id chunk fin fed) (on_data id chunk fin r).1
unfolding carried
on_data-Intact fed id chunk fin r h i = elim (Bool-cases (id == i)) [
  | inl q ↦
      let e : id ≡ i = (==_iff id i).0 q in
      rw q (
        subst
          (λ j.
            Stream (if fin then [] else fed j ++ chunk)
              (lookup j (on_data id chunk fin r).1.dropped)
              (lookup j (on_data id chunk fin r).1.streams))
          e (own-Stream (fed id) chunk id fin r (h id)))
  | inr q ↦
      rw q (
        Kept-Stream (fed i) i r (on_data id chunk fin r).1 (on_data-other id i chunk fin r q) (h i))
]

on_reset-Intact :
    (fed : ℕ → List ℕ) (id : ℕ) (r : BulkReceiver)
    → Intact fed r
    → Intact (carried id [] true fed) (on_reset id r)
unfolding carried
on_reset-Intact fed id r h i = elim (Bool-cases (id == i)) [
  | inl q ↦
      let (d, t) = on_reset_self id r in
      rw q (
        subst (λ j. Stream [] (lookup j (on_reset id r).dropped) (lookup j (on_reset id r).streams))
          ((==_iff id i).0 q) (rw (d, t) refl))
  | inr q ↦ rw q (Kept-Stream (fed i) i r (on_reset id r) (on_reset_other id i r q) (h i))
]

-- What each open stream has carried, over the calls.
unfoldable pub fed_by : List Call → ℕ → List ℕ
unfolding carried
fed_by [] i = []
fed_by (bytes_read id chunk fin ∷ cs) i = carried id chunk fin (fed_by cs) i
fed_by (stream_reset id ∷ cs) i = carried id [] true (fed_by cs) i

pub replay-Intact : (cs : List Call) → Intact (fed_by cs) (replay cs)
unfolding replay apply fed_by new lookup
replay-Intact [] = λ i. refl
replay-Intact (bytes_read id chunk fin ∷ cs) =
    on_data-Intact (fed_by cs) id chunk fin (replay cs) (replay-Intact cs)
replay-Intact (stream_reset id ∷ cs) = on_reset-Intact (fed_by cs) id (replay cs) (replay-Intact cs)
