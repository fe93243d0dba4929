-- ===== src/Video/Reassembler/Complete.antt =====
-- Without losses a NAL unit that was cut by `chunk_nal` comes back whole.
use robotele.Prelude.{
  ℕ, suc, ◌+◌, ◌%◌, ◌≤◌, ◌<◌, ◌≡◌, refl, ap, ◌∙◌, true, false, Option, none, some, List, [], ◌∷◌,
  ◌++◌, arith, length, length-append, ◌==◌, ltb, inl, inr, Bool-cases,
}
use mathlib.Core.List.{append_assoc}
use robotele.Prelude.Assoc.{nat_eq, lookup, insert}
use robotele.Video.Chunk.{ChunkHeader, number}
use robotele.Video.Chunk.Cut.{concat}
use robotele.Video.Reassembler.{
  PendingNal, NalReassembler, fresh, pad, is_free, put, store, all_some, is_complete, flatten,
  evict, entry_or, on_chunk,
}
use robotele.Video.Reassembler.Integrity.{receive}

abbrev pub slots : List (List ℕ) → List (Option (List ℕ))
slots [] = []
slots (p ∷ ps) = some p ∷ slots ps

abbrev pub partial : List (List ℕ) → PendingNal
partial ps = record { chunks = slots ps; received = length ps; total = none }

pad-slots : (ps : List (List ℕ)) → pad (suc (length ps)) (slots ps) ≡ slots ps ++ none ∷ []
unfolding pad
pad-slots [] = refl
pad-slots (p ∷ ps) = ap (◌∷◌ (some p)) (pad-slots ps)

is_free-slots : (ps : List (List ℕ)) → is_free (length ps) (slots ps ++ none ∷ []) ≡ true
unfolding is_free
is_free-slots [] = refl
is_free-slots (p ∷ ps) = is_free-slots ps

put-slots :
    (ps : List (List ℕ)) (x : List ℕ)
    → put (length ps) x (slots ps ++ none ∷ []) ≡ slots (ps ++ x ∷ [])
unfolding put
put-slots [] x = refl
put-slots (p ∷ ps) x = ap (◌∷◌ (some p)) (put-slots ps x)

all_some-slots : (ps : List (List ℕ)) → all_some (slots ps) ≡ true
unfolding all_some
all_some-slots [] = refl
all_some-slots (p ∷ ps) = all_some-slots ps

flatten-slots : (ps : List (List ℕ)) → flatten (slots ps) ≡ concat ps
unfolding flatten
flatten-slots [] = refl
flatten-slots (p ∷ ps) = ap (◌++◌ p) (flatten-slots ps)

-- The next piece in order, not the last.
store-next :
    (h : ChunkHeader) (ps : List (List ℕ)) (x : List ℕ)
    → h.chunk_index ≡ length ps
    → h.is_last ≡ false
    → store h x (partial ps) ≡ partial (ps ++ x ∷ [])
unfolding store
store-next h ps x i l =
    ground (arith, pad-slots ps, is_free-slots ps, put-slots ps x, length-append ps (x ∷ []))

store-last :
    (h : ChunkHeader) (ps : List (List ℕ)) (x : List ℕ)
    → h.chunk_index ≡ length ps
    → h.is_last ≡ true
    → (is_complete (store h x (partial ps)) ≡ true)
      × (flatten (store h x (partial ps)).chunks ≡ concat (ps ++ x ∷ []))
unfolding store is_complete
store-last h ps x i l = ground (
  arith,
  pad-slots ps,
  is_free-slots ps,
  put-slots ps x,
  length-append ps (x ∷ []),
  all_some-slots (ps ++ x ∷ []),
  flatten-slots (ps ++ x ∷ []),
)

-- The units that wait beside, and the one whose pieces come, if it has begun.
abbrev pub holding : List (ℕ × PendingNal) → ℕ → List (List ℕ) → List (ℕ × PendingNal)
holding others nal_id [] = others
holding others nal_id (p ∷ ps) = others ++ (nal_id, partial (p ∷ ps)) ∷ []

lookup-beside :
    (others : List (ℕ × PendingNal)) (nal_id : ℕ) (e : PendingNal)
    → lookup nal_id others ≡ none
    → lookup nal_id (others ++ (nal_id, e) ∷ []) ≡ some e
unfolding lookup
lookup-beside [] nal_id e h = ground arith
lookup-beside ((k, p) ∷ others) nal_id e h = elim (Bool-cases (k == nal_id)) [
  | inl q ↦ cc (rw q at h)
  | inr q ↦ rw q (lookup-beside others nal_id e (rw q at h))
]

insert-absent :
    (others : List (ℕ × PendingNal)) (nal_id : ℕ) (e : PendingNal)
    → lookup nal_id others ≡ none
    → insert nal_id e others ≡ others ++ (nal_id, e) ∷ []
unfolding insert lookup
insert-absent [] nal_id e h = refl
insert-absent ((k, p) ∷ others) nal_id e h = elim (Bool-cases (k == nal_id)) [
  | inl q ↦ cc (rw q at h)
  | inr q ↦ rw q (ap (λ m. (k, p) ∷ m) (insert-absent others nal_id e (rw q at h)))
]

insert-beside :
    (others : List (ℕ × PendingNal)) (nal_id : ℕ) (old e : PendingNal)
    → lookup nal_id others ≡ none
    → insert nal_id e (others ++ (nal_id, old) ∷ []) ≡ others ++ (nal_id, e) ∷ []
unfolding insert lookup
insert-beside [] nal_id old e h = ground arith
insert-beside ((k, p) ∷ others) nal_id old e h = elim (Bool-cases (k == nal_id)) [
  | inl q ↦ cc (rw q at h)
  | inr q ↦ rw q (ap (λ m. (k, p) ∷ m) (insert-beside others nal_id old e (rw q at h)))
]

entry_or-holding :
    (others : List (ℕ × PendingNal)) (nal_id : ℕ) (ps : List (List ℕ))
    → lookup nal_id others ≡ none
    → entry_or (lookup nal_id (holding others nal_id ps)) ≡ partial ps
unfolding entry_or fresh
entry_or-holding others nal_id [] h = rw h refl
entry_or-holding others nal_id (p ∷ ps) h =
    rw (lookup-beside others nal_id (partial (p ∷ ps)) h) refl

insert-holding :
    (others : List (ℕ × PendingNal)) (nal_id : ℕ) (ps : List (List ℕ)) (entry : PendingNal)
    → lookup nal_id others ≡ none
    → insert nal_id entry (holding others nal_id ps) ≡ others ++ (nal_id, entry) ∷ []
insert-holding others nal_id [] entry h = insert-absent others nal_id entry h
insert-holding others nal_id (p ∷ ps) entry h =
    insert-beside others nal_id (partial (p ∷ ps)) entry h

holding-push :
    (others : List (ℕ × PendingNal)) (nal_id : ℕ) (ps : List (List ℕ)) (x : List ℕ)
    → holding others nal_id (ps ++ x ∷ []) ≡ others ++ (nal_id, partial (ps ++ x ∷ [])) ∷ []
holding-push others nal_id [] x = refl
holding-push others nal_id (p ∷ ps) x = refl

evict-room :
    (max_pending : ℕ) (others : List (ℕ × PendingNal)) (e : ℕ × PendingNal)
    → length others < max_pending
    → evict max_pending (others ++ e ∷ []) ≡ others ++ e ∷ []
unfolding evict
evict-room max_pending others e h =
    let room : ltb max_pending (length (others ++ e ∷ [])) ≡ false =
      grind (arith, length-append others (e ∷ [])) in
    rw room refl

partial-incomplete : (ps : List (List ℕ)) → is_complete (partial ps) ≡ false
unfolding is_complete
partial-incomplete ps = refl

abbrev pub state : ℕ → List (ℕ × PendingNal) → ℕ → List (List ℕ) → NalReassembler
state max_pending others nal_id ps = record {
  pending = holding others nal_id ps;
  max_pending = max_pending;
}

on_chunk-next :
    (max_pending : ℕ) (others : List (ℕ × PendingNal)) (h : ChunkHeader) (ps : List (List ℕ))
    (x : List ℕ)
    → length others < max_pending
    → lookup h.nal_id others ≡ none
    → h.chunk_index ≡ length ps
    → h.is_last ≡ false
    → on_chunk (state max_pending others h.nal_id ps) h x
      ≡ (state max_pending others h.nal_id (ps ++ x ∷ []), none)
unfolding on_chunk
on_chunk-next max_pending others h ps x m a i l = rw (
  entry_or-holding others h.nal_id ps a,
  store-next h ps x i l,
  partial-incomplete (ps ++ x ∷ []),
  insert-holding others h.nal_id ps (partial (ps ++ x ∷ [])) a,
  holding-push others h.nal_id ps x,
  evict-room max_pending others (h.nal_id, partial (ps ++ x ∷ [])) m,
)

on_chunk-last :
    (max_pending : ℕ) (others : List (ℕ × PendingNal)) (h : ChunkHeader) (ps : List (List ℕ))
    (x : List ℕ)
    → lookup h.nal_id others ≡ none
    → h.chunk_index ≡ length ps
    → h.is_last ≡ true
    → (on_chunk (state max_pending others h.nal_id ps) h x).1 ≡ some (concat (ps ++ x ∷ []))
unfolding on_chunk
on_chunk-last max_pending others h ps x a i l =
    let (whole, bytes) = store-last h ps x i l in
    rw (entry_or-holding others h.nal_id ps a, whole) (ap some bytes)

receive-step :
    (r r' : NalReassembler) (h : ChunkHeader) (x : List ℕ) (cs : List (ChunkHeader × List ℕ))
    → on_chunk r h x ≡ (r', none)
    → receive r ((h, x) ∷ cs) ≡ receive r' cs
unfolding receive
receive-step r r' h x cs e =
    rw (ap (λ (p : NalReassembler × Option (List ℕ)). p.1) e, receive)
      (ap (λ (p : NalReassembler × Option (List ℕ)). receive p.0 cs) e)

receive-done :
    (r : NalReassembler) (h : ChunkHeader) (x out : List ℕ)
    → (on_chunk r h x).1 ≡ some out
    → receive r ((h, x) ∷ []) ≡ (h.nal_id, out) ∷ []
unfolding receive
receive-done r h x out e = rw (e, receive)

-- From a state that holds the pieces before `i`, the remaining ones in order complete the unit.
pub receive-number :
    (max_pending : ℕ) (others : List (ℕ × PendingNal)) (nal_id i n : ℕ) (done rest : List (List ℕ))
    (x : List ℕ)
    → length others < max_pending
    → lookup nal_id others ≡ none
    → i ≡ length done
    → n ≡ i + length (x ∷ rest)
    → n ≤ 65536
    → receive (state max_pending others nal_id done) (number nal_id n i (x ∷ rest))
      ≡ (nal_id, concat (done ++ x ∷ rest)) ∷ []
unfolding number
receive-number max_pending others nal_id i n done [] x m a e s b =
    let h : ChunkHeader = record {
      nal_id = nal_id;
      chunk_index = i % 65536;
      is_last = i + 1 == n;
    } in
    receive-done (state max_pending others nal_id done) h x _
      (on_chunk-last max_pending others h done x a (omega arith) (ground arith))
receive-number max_pending others nal_id i n done (y ∷ rest) x m a e s b =
    let h : ChunkHeader = record {
      nal_id = nal_id;
      chunk_index = i % 65536;
      is_last = i + 1 == n;
    } in
    receive-step (state max_pending others nal_id done) _ h x _
      (on_chunk-next max_pending others h done x m a (omega arith) (ground arith))
    ∙ receive-number max_pending others nal_id (i + 1) n (done ++ x ∷ []) rest y m a
        (omega (arith, length-append done (x ∷ []))) (omega arith) b
    ∙ ap (λ ps. (nal_id, concat ps) ∷ []) (append_assoc done (x ∷ []) (y ∷ rest))
