-- ===== src/Bulk/Receiver/Versions.antt =====
-- The latest version of each object, and how the operations move it.
pub mod Noted
pub mod Newest
use robotele.Prelude.{
  ℕ, ◌≤◌, ◌≡◌, ◌==◌, refl, ap, ◌∙◌, sym, subst, Bool, true, false, not, Option, none, some, List,
  [], ◌∷◌, ◌++◌, arith, ltb, if◌then◌else◌, inl, inr, Bool-cases, Option-cases, length, drop,
  ==_iff, ltb_false→le, max,
}
use robotele.Prelude.Assoc.{nat_eq, lookup, insert, remove, lookup-insert_self, lookup-insert_ne}
use robotele.Prelude.Result.{Result, ok, err}
use robotele.Bulk.Header.{
  BulkHeader, BulkKind, BulkError, bulk_header_len, decode, key, key_eq, beq_key, beq_key_iff,
}
use robotele.Bulk.Receiver.{
  BulkReceiver, BulkObject, Partial, new, drop_stream, drop_all, superseded_one, reject, on_header,
  newest, stale, latest_or, finish, complete, close, is_too_long, is_superseded, read, needs_header,
  with_header, on_data, on_reset, extend,
}

-- A version of at least `v` is noted.
abbrev pub AtLeast : ℕ → Option ℕ → Type 0
AtLeast v none = ⊥
AtLeast v (some w) = v ≤ w

abbrev pub Grows : BulkReceiver → BulkReceiver → Type 0
Grows r s =
    (k : BulkKind × ℕ) (v : ℕ) → AtLeast v (lookup k r.latest) → AtLeast v (lookup k s.latest)

drop_stream-latest : (id : ℕ) (r : BulkReceiver) → (drop_stream id r).latest ≡ r.latest
unfolding drop_stream
drop_stream-latest id r = elim (Option-cases (lookup id r.streams)) [
  | inl e ↦ rw (e, drop_stream) refl
  | inr (p, e) ↦ rw (e, drop_stream) refl
]

drop_all-latest : (ids : List ℕ) (r : BulkReceiver) → (drop_all ids r).latest ≡ r.latest
unfolding drop_all
drop_all-latest [] r = refl
drop_all-latest (id ∷ ids) r =
    drop_all-latest ids (superseded_one (drop_stream id r)) ∙ drop_stream-latest id r

pub on_header-latest :
    (id : ℕ) (h : BulkHeader) (r : BulkReceiver)
    → (on_header id h r).latest ≡ insert (key h) (newest h r) r.latest
unfolding on_header
on_header-latest id h r =
    let noted = record r { latest = insert (key h) (newest h r) r.latest } in
    let rest = drop_all (stale id h r.streams) noted in
    elim (Bool-cases (ltb h.version (newest h r))) [
      | inl q ↦ rw q (drop_stream-latest id rest ∙ drop_all-latest (stale id h r.streams) noted)
      | inr q ↦ rw q (drop_all-latest (stale id h r.streams) noted)
    ]

complete-latest :
    (h : BulkHeader) (bytes : List ℕ) (r : BulkReceiver) → (complete h bytes r).1.latest ≡ r.latest
unfolding complete
complete-latest h bytes r = elim (Bool-cases (length bytes == h.size)) [
  | inr q ↦ rw (q, complete) refl
  | inl q ↦
      rw (q, complete)
        (elim (Bool-cases (is_superseded h.version (lookup (key h) r.latest))) [
          | inl s ↦ rw (s, complete) refl
          | inr s ↦ rw (s, complete) refl
        ])
]

close-latest :
    (id : ℕ) (header : Option BulkHeader) (bytes : List ℕ) (r : BulkReceiver)
    → (close id header bytes r).1.latest ≡ r.latest
close-latest id none bytes r = refl
close-latest id (some h) bytes r =
    complete-latest h bytes (record r { streams = remove id r.streams })

pub finish-latest : (id : ℕ) (fin : Bool) (r : BulkReceiver) → (finish id fin r).1.latest ≡ r.latest
unfolding finish reject
finish-latest id fin r = elim (Option-cases (lookup id r.streams)) [
  | inl e ↦ rw (e, finish) refl
  | inr (p, e) ↦
      rw (e, finish)
        (elim (Bool-cases (is_too_long p.header p.bytes)) [
          | inl q ↦ rw (q, finish) (drop_stream-latest id r)
          | inr q ↦ elim (Bool-cases fin) [
            | inr f ↦ rw (q, f, finish) refl
            | inl f ↦ rw (q, f, finish) (close-latest id p.header p.bytes r)
          ]
        ])
]

newest-AtLeast : (v : ℕ) (h : BulkHeader) (o : Option ℕ) → AtLeast v o → v ≤ latest_or h.version o
newest-AtLeast v h none a = elim a [ ]
newest-AtLeast v h (some w) a = omega arith

latest_or-le : (v : ℕ) (o : Option ℕ) → v ≤ latest_or v o
latest_or-le v none = omega arith
latest_or-le v (some w) = omega arith

pub on_header-Grows : (id : ℕ) (h : BulkHeader) (r : BulkReceiver) → Grows r (on_header id h r)
unfolding newest
on_header-Grows id h r k v a = rw (on_header-latest id h r) (elim (Bool-cases (beq_key (key h) k)) [
  | inl q ↦
      let same : key h ≡ k = (beq_key_iff (key h) k).0 q in
      subst (λ j. AtLeast v (lookup j (insert (key h) (newest h r) r.latest))) same
        (rw (lookup-insert_self (key h) (newest h r) r.latest) (
          newest-AtLeast v h (lookup (key h) r.latest)
            (subst (λ j. AtLeast v (lookup j r.latest)) (sym same) a)))
  | inr q ↦ rw (lookup-insert_ne (key h) k (newest h r) r.latest q) a
])

-- A header that was read is noted.
pub on_header-AtLeast :
    (id : ℕ) (h : BulkHeader) (r : BulkReceiver)
    → AtLeast h.version (lookup (key h) (on_header id h r).latest)
unfolding newest
on_header-AtLeast id h r =
    rw (on_header-latest id h r, lookup-insert_self (key h) (newest h r) r.latest)
      (latest_or-le h.version (lookup (key h) r.latest))

pub same-Grows : (r s : BulkReceiver) → s.latest ≡ r.latest → Grows r s
same-Grows r s e k v a = rw e a
