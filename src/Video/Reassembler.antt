-- ===== src/Video/Reassembler.antt =====
-- crates/roboprotocol-core/src/video.rs: NAL units put together again from received chunks.
pub mod Entry
pub mod Integrity
pub mod Bounded
pub mod Complete
use robotele.Prelude.{
  ℕ, zero, suc, ◌+◌, Bool, true, false, ◌&&◌, Option, none, some, List, [], ◌∷◌, ◌++◌, ltb, leb,
  ◌==◌, if◌then◌else◌, length, min,
}
use robotele.Prelude.Assoc.{nat_eq, lookup, insert, remove}
use robotele.Video.Chunk.{ChunkHeader}

pub record PendingNal : Type 0 where
  pub chunks : List (Option (List ℕ))
  pub received : ℕ
  pub total : Option ℕ

-- The map's keys are distinct; its order is not observed.
pub record NalReassembler : Type 0 where
  pub pending : List (ℕ × PendingNal)
  pub max_pending : ℕ

unfoldable pub new : ℕ → NalReassembler
new max_pending = record { pending = []; max_pending = max_pending }

unfoldable pub fresh : PendingNal
fresh = record { chunks = []; received = 0; total = none }

-- `if chunks.len() <= idx { chunks.resize(idx + 1, None) }`, for `k` = idx + 1.
unfoldable pub pad : ℕ → List (Option (List ℕ)) → List (Option (List ℕ))
pad zero cs = cs
pad (suc k) [] = none ∷ pad k []
pad (suc k) (c ∷ cs) = c ∷ pad k cs

unfoldable pub is_free : ℕ → List (Option (List ℕ)) → Bool
is_free i [] = false
is_free zero (none ∷ cs) = true
is_free zero (some x ∷ cs) = false
is_free (suc i) (c ∷ cs) = is_free i cs

unfoldable pub put : ℕ → List ℕ → List (Option (List ℕ)) → List (Option (List ℕ))
put i x [] = []
put zero x (c ∷ cs) = some x ∷ cs
put (suc i) x (c ∷ cs) = c ∷ put i x cs

unfoldable pub store : ChunkHeader → List ℕ → PendingNal → PendingNal
store h payload entry =
    let cs = pad (suc h.chunk_index) entry.chunks in
    let free = is_free h.chunk_index cs in
    record {
      chunks = if free then put h.chunk_index payload cs else cs;
      received = if free then entry.received + 1 else entry.received;
      total = if h.is_last then some (suc h.chunk_index) else entry.total;
    }

abbrev pub total_is : Option ℕ → ℕ → Bool
total_is none n = false
total_is (some t) n = t == n

unfoldable pub all_some : List (Option (List ℕ)) → Bool
all_some [] = true
all_some (none ∷ cs) = false
all_some (some x ∷ cs) = all_some cs

unfoldable pub is_complete : PendingNal → Bool
is_complete entry = total_is entry.total entry.received && all_some entry.chunks

-- `chunks.into_iter().flatten().flatten()`
unfoldable pub flatten : List (Option (List ℕ)) → List ℕ
flatten [] = []
flatten (none ∷ cs) = flatten cs
flatten (some x ∷ cs) = x ++ flatten cs

-- `pending.keys().min()`
unfoldable pub oldest : List (ℕ × PendingNal) → Option ℕ
oldest [] = none
oldest ((k, p) ∷ m) = elim (oldest m) [ none ↦ some k | some j ↦ some (min k j) ]

abbrev pub drop_key : Option ℕ → List (ℕ × PendingNal) → List (ℕ × PendingNal)
drop_key none m = m
drop_key (some k) m = remove k m

unfoldable pub evict : ℕ → List (ℕ × PendingNal) → List (ℕ × PendingNal)
unfolding oldest
evict max_pending m = if ltb max_pending (length m) then drop_key (oldest m) m else m

abbrev pub entry_or : Option PendingNal → PendingNal
unfolding fresh
entry_or none = fresh
entry_or (some p) = p

unfoldable pub on_chunk : NalReassembler → ChunkHeader → List ℕ → NalReassembler × Option (List ℕ)
on_chunk r h payload =
    let entry = store h payload (entry_or (lookup h.nal_id r.pending)) in
    let result = if is_complete entry then some (flatten entry.chunks) else none in
    let pending =
      if is_complete entry then remove h.nal_id r.pending else insert h.nal_id entry r.pending in
    (record r { pending = evict r.max_pending pending }, result)
