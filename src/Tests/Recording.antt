-- ===== src/Tests/Recording.antt =====
-- The theorems on the recorder at concrete inputs.
use robotele.Prelude.{ℕ, ◌≡◌, false, List, [], ◌∷◌, ◌++◌, arith, take}
use robotele.Prelude.Bytes.{to_be_bytes}
use robotele.Recording.Record.{RecordHeader, encode_record, decode_records}
use robotele.Recording.Record.Torn.{encode_all, decode_records-torn}
use robotele.Recording.Retention.{
  SegmentMeta, segments_to_delete_for_budget, range_from, Chosen, segments_to_delete-Chosen,
}
use robotele.Recording.Ring.{Record}
use robotele.Recording.Ring.Order.{Call, enqueues, activates}

abbrev key_press : RecordHeader
key_press = record { capture_us = 1_000; control_source = 0xFF }

decode_records-torn_example :
    decode_records (
      encode_all ((key_press, 1 ∷ 2 ∷ []) ∷ [])
      ++ take 14 (encode_record key_press (3 ∷ 4 ∷ []) []))
    ≡ (key_press, 1 ∷ 2 ∷ []) ∷ []
unfolding encode_record to_be_bytes
decode_records-torn_example =
    decode_records-torn ((key_press, 1 ∷ 2 ∷ []) ∷ []) key_press (3 ∷ 4 ∷ []) 14 (omega arith)
      (omega arith) (omega arith)

abbrev segment : ℕ → SegmentMeta
segment size = record { size_bytes = size }

abbrev segments : List SegmentMeta
segments = segment 30 ∷ segment 30 ∷ segment 30 ∷ []

segments_to_delete-Chosen_example :
    (k : ℕ) × (segments_to_delete_for_budget segments 10 60 ≡ range_from 0 k)
    × Chosen segments 10 60 k
segments_to_delete-Chosen_example = segments_to_delete-Chosen segments 10 60

abbrev numbered : ℕ → Record
numbered i = record { capture_us = i; control_source = 0xFF; payload = [] }

abbrev ring_calls : List Call
ring_calls =
    activates false ∷ enqueues (numbered 3) ∷ enqueues (numbered 2) ∷ enqueues (numbered 1) ∷ []
