-- ===== src/Tests/Video.antt =====
-- The theorems on Channel A at concrete inputs.
use robotele.Prelude.{
  ℕ, ◌≤◌, ◌≡◌, refl, true, false, none, some, List, [], ◌∷◌, ◌++◌, arith, length,
}
use robotele.Video.Chunk.{ChunkHeader, chunk_nal, encode, decode, decode-encode, chunks}
use robotele.Prelude.Assoc.{nat_eq, lookup}
use robotele.Video.Reassembler.{PendingNal, new, on_chunk}
use robotele.Video.Reassembler.Bounded.{on_chunk-bounded}
use robotele.Video.Reassembler.Integrity.{AllAuthentic, AllSent, receive, receive-intact}
use robotele.Video.ChannelA.{on_datagrams, max_pending_nals, start_code, on_datagrams-chunk_nal}
use robotele.Video.Gate.{DeltaGate}

abbrev only_chunk : ChunkHeader
only_chunk = record { nal_id = 9; chunk_index = 0; is_last = true }

decode-encode_chunk_example :
    decode (encode only_chunk [] ++ 1 ∷ 2 ∷ []) ≡ some (only_chunk, 1 ∷ 2 ∷ [])
decode-encode_chunk_example = decode-encode only_chunk (1 ∷ 2 ∷ []) (omega arith) (omega arith)

on_chunk-bounded_example :
    length (on_chunk (new 2) only_chunk (1 ∷ [])).0.pending
    ≤ (on_chunk (new 2) only_chunk (1 ∷ [])).0.max_pending
unfolding new
on_chunk-bounded_example = on_chunk-bounded (new 2) only_chunk (1 ∷ []) (omega arith)

-- Each id's unit is two bytes.
abbrev two_bytes : ℕ → List ℕ
two_bytes nal_id = nal_id ∷ 7 ∷ []

sent_whole : AllAuthentic two_bytes ((only_chunk, 9 ∷ 7 ∷ []) ∷ (only_chunk, 9 ∷ 7 ∷ []) ∷ [])
unfolding chunks
sent_whole = (record { piece = refl; last = refl }, (record { piece = refl; last = refl }, tt))

receive-intact_example :
    AllSent two_bytes (receive (new 4) ((only_chunk, 9 ∷ 7 ∷ []) ∷ (only_chunk, 9 ∷ 7 ∷ []) ∷ []))
receive-intact_example = receive-intact two_bytes 4 _ sent_whole

-- Beside a unit of which the second chunk has come.
abbrev one_waits : List (ℕ × PendingNal)
one_waits = (7, record { chunks = none ∷ some (1 ∷ []) ∷ []; received = 1; total = some 2 }) ∷ []

on_datagrams-chunk_nal_example :
    on_datagrams
      (record { pending = one_waits; max_pending = max_pending_nals })
      (chunk_nal 3 (0x65 ∷ 1 ∷ 2 ∷ []))
    ≡ (3, start_code ++ 0x65 ∷ 1 ∷ 2 ∷ []) ∷ []
unfolding lookup
on_datagrams-chunk_nal_example =
    on_datagrams-chunk_nal one_waits 3 0x65 (1 ∷ 2 ∷ []) (omega arith) refl (omega arith)
      (omega arith)

-- A gate that has just let an IDR of id 10 through.
abbrev after_idr : DeltaGate
after_idr = record {
  next_id = some 11;
  frozen = false;
  stats = record { freezes = 0; deltas_held = 0 };
}
