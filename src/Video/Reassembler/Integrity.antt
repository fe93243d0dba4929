-- ===== src/Video/Reassembler/Integrity.antt =====
-- Nothing torn leaves the reassembler, whatever is lost, repeated, late or interleaved.
use robotele.Prelude.{
  ℕ, ◌≡◌, Option, none, some, List, [], ◌∷◌, arith, Bool-cases, Option-cases, inl, inr, ltb, length,
}
use robotele.Prelude.Assoc.{nat_eq, lookup, Every, insert-Every, remove-Every, lookup-Every}
use robotele.Video.Chunk.{ChunkHeader, max_chunk_payload, chunks}
use robotele.Video.Chunk.Cut.{concat-chunks}
use robotele.Video.Reassembler.{
  PendingNal, NalReassembler, new, fresh, store, is_complete, oldest, drop_key, evict, entry_or,
  on_chunk,
}
use robotele.Video.Reassembler.Entry.{Good, fresh-Good, Authentic, store-Good, flatten_complete}

-- The pieces of the NAL unit that the sender gave an id.
abbrev pub pieces : (ℕ → List ℕ) → ℕ → List (List ℕ)
pieces source nal_id = chunks max_chunk_payload (source nal_id)

abbrev GoodMap : (ℕ → List ℕ) → List (ℕ × PendingNal) → Type 0
GoodMap source m = Every (λ nal_id entry. Good (pieces source nal_id) entry) m

entry_or-Good :
    (source : ℕ → List ℕ) (nal_id : ℕ) (m : List (ℕ × PendingNal))
    → GoodMap source m
    → Good (pieces source nal_id) (entry_or (lookup nal_id m))
unfolding entry_or fresh
entry_or-Good source nal_id m g = elim (Option-cases (lookup nal_id m)) [
  | inl e ↦ rw e (fresh-Good (pieces source nal_id))
  | inr (p, e) ↦ rw e (lookup-Every (λ k entry. Good (pieces source k) entry) nal_id p m g e)
]

drop_key-GoodMap :
    (source : ℕ → List ℕ) (k : Option ℕ) (m : List (ℕ × PendingNal))
    → GoodMap source m
    → GoodMap source (drop_key k m)
drop_key-GoodMap source none m g = g
drop_key-GoodMap source (some k) m g = remove-Every _ k m g

evict-GoodMap :
    (source : ℕ → List ℕ) (max_pending : ℕ) (m : List (ℕ × PendingNal))
    → GoodMap source m
    → GoodMap source (evict max_pending m)
unfolding evict
evict-GoodMap source max_pending m g = elim (Bool-cases (ltb max_pending (length m))) [
  | inl over ↦ rw over (drop_key-GoodMap source (oldest m) m g)
  | inr within ↦ rw within g
]

stored-Good :
    (source : ℕ → List ℕ) (r : NalReassembler) (h : ChunkHeader) (payload : List ℕ)
    → Authentic (pieces source h.nal_id) h payload
    → GoodMap source r.pending
    → Good (pieces source h.nal_id) (store h payload (entry_or (lookup h.nal_id r.pending)))
stored-Good source r h payload a g =
    store-Good (pieces source h.nal_id) h payload _ a (entry_or-Good source h.nal_id r.pending g)

on_chunk-GoodMap :
    (source : ℕ → List ℕ) (r : NalReassembler) (h : ChunkHeader) (payload : List ℕ)
    → Authentic (pieces source h.nal_id) h payload
    → GoodMap source r.pending
    → GoodMap source (on_chunk r h payload).0.pending
unfolding on_chunk
on_chunk-GoodMap source r h payload a g =
    let entry = store h payload (entry_or (lookup h.nal_id r.pending)) in
    elim (Bool-cases (is_complete entry)) [
      | inl done ↦
          rw done (evict-GoodMap source r.max_pending _ (remove-Every _ h.nal_id r.pending g))
      | inr more ↦ rw more (
          evict-GoodMap source r.max_pending _
            (insert-Every _ h.nal_id entry r.pending (stored-Good source r h payload a g) g))
    ]

on_chunk-output :
    (source : ℕ → List ℕ) (r : NalReassembler) (h : ChunkHeader) (payload out : List ℕ)
    → Authentic (pieces source h.nal_id) h payload
    → GoodMap source r.pending
    → (on_chunk r h payload).1 ≡ some out
    → out ≡ source h.nal_id
unfolding on_chunk
on_chunk-output source r h payload out a g e =
    let entry = store h payload (entry_or (lookup h.nal_id r.pending)) in
    ground (
      arith,
      flatten_complete (pieces source h.nal_id) entry (stored-Good source r h payload a g),
      concat-chunks (source h.nal_id),
    )

-- What is received, oldest first, and what it completes.
abbrev pub AllAuthentic : (ℕ → List ℕ) → List (ChunkHeader × List ℕ) → Type 0
AllAuthentic source [] = Unit {0}
AllAuthentic source ((h, payload) ∷ cs) =
    Authentic (pieces source h.nal_id) h payload × AllAuthentic source cs

unfoldable pub receive : NalReassembler → List (ChunkHeader × List ℕ) → List (ℕ × List ℕ)
receive r [] = []
receive r ((h, payload) ∷ cs) =
    let (r', result) = on_chunk r h payload in
    let rest = receive r' cs in elim result [ none ↦ rest | some out ↦ (h.nal_id, out) ∷ rest ]

abbrev pub AllSent : (ℕ → List ℕ) → List (ℕ × List ℕ) → Type 0
AllSent source [] = Unit {0}
AllSent source ((nal_id, out) ∷ outs) = (out ≡ source nal_id) × AllSent source outs

receive-AllSent :
    (source : ℕ → List ℕ) (r : NalReassembler) (cs : List (ChunkHeader × List ℕ))
    → AllAuthentic source cs
    → GoodMap source r.pending
    → AllSent source (receive r cs)
unfolding receive
receive-AllSent source r [] a g = tt
receive-AllSent source r ((h, payload) ∷ cs) a g =
    let rest =
      receive-AllSent source (on_chunk r h payload).0 cs a.1
        (on_chunk-GoodMap source r h payload a.0 g) in
    elim (Option-cases (on_chunk r h payload).1) [
      | inl e ↦ rw (e, receive) rest
      | inr (out, e) ↦ rw (e, receive) (on_chunk-output source r h payload out a.0 g e, rest)
    ]

-- Whatever chunks of whatever NAL units reach a new reassembler, in any order, with any losses and
-- repetitions and however many units are evicted, each unit that it hands out is, byte for byte, the
-- one that was sent under its id.
pub receive-intact :
    (source : ℕ → List ℕ) (max_pending : ℕ) (cs : List (ChunkHeader × List ℕ))
    → AllAuthentic source cs
    → AllSent source (receive (new max_pending) cs)
unfolding new
receive-intact source max_pending cs a = receive-AllSent source _ cs a tt
