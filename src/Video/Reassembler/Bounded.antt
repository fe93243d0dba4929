-- ===== src/Video/Reassembler/Bounded.antt =====
-- The memory bound of the reassembler.
use robotele.Prelude.{
  ℕ, suc, ◌≤◌, ◌≡◌, some, List, [], ◌∷◌, arith, length, min, Bool-cases, Option-cases, inl, inr,
  ◌==◌,
}
use robotele.Prelude.Assoc.{
  nat_eq, lookup, insert, remove, length-insert, length-remove, length-remove_present,
}
use robotele.Video.Chunk.{ChunkHeader}
use robotele.Video.Reassembler.{
  PendingNal, NalReassembler, store, oldest, evict, entry_or, on_chunk,
}

oldest-lookup_cons :
    (j : ℕ) (p : PendingNal) (m : List (ℕ × PendingNal)) (k i : ℕ)
    → oldest m ≡ some i
    → oldest ((j, p) ∷ m) ≡ some k
    → ((q : PendingNal) × (lookup i m ≡ some q))
    → (q : PendingNal) × (lookup k ((j, p) ∷ m) ≡ some q)
unfolding oldest lookup
oldest-lookup_cons j p m k i e h (q, f) = elim (Bool-cases (j == k)) [
  | inl same ↦ (p, rw same)
  | inr other ↦ (q, ground arith)
]

-- The least key is a key.
oldest-lookup :
    (m : List (ℕ × PendingNal)) (k : ℕ)
    → oldest m ≡ some k
    → (p : PendingNal) × (lookup k m ≡ some p)
unfolding oldest lookup
oldest-lookup [] k h = cc
oldest-lookup ((j, p) ∷ m) k h = elim (Option-cases (oldest m)) [
  | inl e ↦ (p, ground arith)
  | inr (i, e) ↦ oldest-lookup_cons j p m k i e h (oldest-lookup m i e)
]

oldest-cons :
    (j : ℕ) (p : PendingNal) (m : List (ℕ × PendingNal)) → (k : ℕ) × (oldest ((j, p) ∷ m) ≡ some k)
unfolding oldest
oldest-cons j p m = elim (Option-cases (oldest m)) [
  | inl e ↦ (j, rw (e, oldest))
  | inr (i, e) ↦ (min j i, rw (e, oldest))
]

pub length-evict :
    (max_pending : ℕ) (m : List (ℕ × PendingNal))
    → length m ≤ suc max_pending
    → length (evict max_pending m) ≤ max_pending
unfolding evict
length-evict max_pending [] h = ground arith
length-evict max_pending ((j, p) ∷ m) h =
    let (k, e) = oldest-cons j p m in
    let (q, f) = oldest-lookup ((j, p) ∷ m) k e in
    ground (arith, length-remove_present k q ((j, p) ∷ m) f)

-- However many chunks are lost, no more NAL units are kept pending than the limit.
pub on_chunk-bounded :
    (r : NalReassembler) (h : ChunkHeader) (payload : List ℕ)
    → length r.pending ≤ r.max_pending
    → length (on_chunk r h payload).0.pending ≤ (on_chunk r h payload).0.max_pending
unfolding on_chunk
on_chunk-bounded r h payload b =
    let entry = store h payload (entry_or (lookup h.nal_id r.pending)) in
    ground (
      arith,
      length-evict r.max_pending (remove h.nal_id r.pending),
      length-evict r.max_pending (insert h.nal_id entry r.pending),
      length-remove h.nal_id r.pending,
      length-insert h.nal_id entry r.pending,
    )
