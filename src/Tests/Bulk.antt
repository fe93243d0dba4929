-- ===== src/Tests/Bulk.antt =====
-- The theorems on bulk objects at concrete inputs.
use robotele.Prelude.{ℕ, ◌≤◌, ◌≡◌, refl, true, false, some, List, [], ◌∷◌, ◌++◌, take, drop}
use robotele.Prelude.Bytes.{to_be_bytes, from_be_bytes}
use robotele.Prelude.Assoc.{lookup, insert, remove}
use robotele.Prelude.Result.{ok}
use robotele.Bulk.Header.{BulkHeader, blob, encode, decode, beq_key}
use robotele.Bulk.Receiver.{
  BulkObject, on_data, read, finish, on_header, newest, drop_all, stale, complete,
}
use robotele.Bulk.Receiver.Calls.{Call, bytes_read, replay}
use robotele.Bulk.Receiver.Intact.{fed_by}
use robotele.Bulk.Receiver.Intact.Delivered.{Delivered, replay-Delivered}
use robotele.Bulk.Receiver.Versions.Newest.{delivered-newer}
use robotele.Bulk.Grid.{OccupancyGrid, pos, negsuc}

abbrev small_blob : BulkHeader
small_blob = record {
  kind = blob;
  source_id = 2;
  encoding = 0;
  version = 5;
  size = 3;
  capture_time_us = 1000;
}

abbrev small_object : BulkObject
small_object = record { header = small_blob; bytes = 7 ∷ 8 ∷ 9 ∷ [] }

-- The header and a first byte, cut inside the header, between bytes of another stream.
abbrev first_bytes : List Call
unfolding encode to_be_bytes
first_bytes =
    bytes_read 3 (drop 10 (encode small_blob) ++ 7 ∷ []) false
    ∷ bytes_read 7 (1 ∷ []) false
    ∷ bytes_read 3 (take 10 (encode small_blob)) false
    ∷ []

last_bytes_complete : (on_data 3 (8 ∷ 9 ∷ []) true (replay first_bytes)).0 ≡ ok (some small_object)
unfolding replay on_data first_bytes encode to_be_bytes lookup read finish insert decode
    from_be_bytes on_header newest drop_all stale complete beq_key
last_bytes_complete = refl

replay-Delivered_example : Delivered (fed_by first_bytes 3 ++ 8 ∷ 9 ∷ []) true small_object
replay-Delivered_example =
    replay-Delivered first_bytes 3 (8 ∷ 9 ∷ []) true small_object last_bytes_complete

abbrev room : OccupancyGrid
room = record {
  width = 2;
  height = 1;
  resolution_mm = 50;
  origin_x_mm = negsuc 999;
  origin_y_mm = pos 4;
  cells = 0 ∷ 100 ∷ [];
}

abbrev newer_blob : BulkHeader
newer_blob = record small_blob { version = 6; size = 1 }

abbrev newer_object : BulkObject
newer_object = record { header = newer_blob; bytes = 1 ∷ [] }

abbrev older_bytes : List ℕ
unfolding encode to_be_bytes
older_bytes = encode small_blob ++ 7 ∷ 8 ∷ 9 ∷ []

abbrev newer_bytes : List ℕ
unfolding encode to_be_bytes
newer_bytes = encode newer_blob ++ 1 ∷ []

older_delivered : (on_data 3 older_bytes true (replay [])).0 ≡ ok (some small_object)
unfolding replay on_data older_bytes encode to_be_bytes lookup read finish insert decode
    from_be_bytes on_header newest drop_all stale complete beq_key
older_delivered = refl

newer_delivered :
    (on_data 7 newer_bytes true (replay (bytes_read 3 older_bytes true ∷ []))).0
    ≡ ok (some newer_object)
unfolding replay on_data older_bytes newer_bytes encode to_be_bytes lookup read finish insert remove
    decode from_be_bytes on_header newest drop_all stale complete beq_key
newer_delivered = refl

delivered-newer_example : small_blob.version ≤ newer_blob.version
delivered-newer_example =
    delivered-newer [] [] 3 7 older_bytes newer_bytes true true small_object newer_object
      older_delivered newer_delivered refl
