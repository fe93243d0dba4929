-- ===== src/Sensor/Slice.antt =====
-- crates/roboprotocol-core/src/sensor.rs: the slice header, and how many slices a frame needs.
use robotele.Prelude.{
  ℕ, ◌+◌, ◌^◌, ◌/◌, ◌<◌, ◌≡◌, Option, none, some, List, [], ◌∷◌, ◌++◌, arith, max, ltb, leb, ◌==◌,
  if◌then◌else◌, length, get_or, drop,
}
use robotele.Prelude.Bytes.{to_be_bytes, from_be_bytes, slice, from_be_bytes-to_be_bytes}
use robotele.Prelude.Result.{Result, ok, err}
use robotele.Video.Chunk.{max_chunk_payload, div_ceil}

abbrev pub slice_header_len : ℕ
slice_header_len = 1 + 4 + 8 + 2 + 2

abbrev pub default_slice_payload : ℕ
default_slice_payload = max_chunk_payload

pub record SliceHeader : Type 0 where
  pub sensor_id : ℕ  -- u8
  pub frame_seq : ℕ  -- u32
  pub capture_time_us : ℕ  -- u64
  pub slice_index : ℕ  -- u16
  pub slice_count : ℕ  -- u16

-- Appended to `out`.
unfoldable pub encode : SliceHeader → List ℕ → List ℕ
encode h out =
    out
    ++ (h.sensor_id
        ∷ (to_be_bytes 4 h.frame_seq
            ++ (to_be_bytes 8 h.capture_time_us
                ++ (to_be_bytes 2 h.slice_index ++ to_be_bytes 2 h.slice_count))))

abbrev pub read_header : List ℕ → SliceHeader
read_header bytes = record {
  sensor_id = get_or bytes 0 0;
  frame_seq = from_be_bytes (slice 1 5 bytes);
  capture_time_us = from_be_bytes (slice 5 13 bytes);
  slice_index = from_be_bytes (slice 13 15 bytes);
  slice_count = from_be_bytes (slice 15 17 bytes);
}

-- A header whose index is not below its count is refused.
unfoldable pub check_index : SliceHeader → List ℕ → Option (SliceHeader × List ℕ)
check_index h payload = if leb h.slice_count h.slice_index then none else some (h, payload)

unfoldable pub decode : List ℕ → Option (SliceHeader × List ℕ)
unfolding check_index
decode bytes =
    if ltb (length bytes) slice_header_len
    then none
    else check_index (read_header bytes) (drop slice_header_len bytes)

pub data SliceError : Type 0 where
  zero_element_size : SliceError
  element_too_large : (element_size max_payload : ℕ) → SliceError
  partial_element : (len element_size : ℕ) → SliceError
  too_many_slices : (needed : ℕ) → SliceError

-- `u16::try_from`
unfoldable pub as_slice_count : ℕ → Result SliceError ℕ
as_slice_count needed = if leb needed 65535 then ok needed else err (too_many_slices needed)

unfoldable pub slice_count : (element_count element_size max_payload : ℕ) → Result SliceError ℕ
unfolding as_slice_count
slice_count element_count element_size max_payload =
    if element_size == 0
    then err zero_element_size
    else if max_payload / element_size == 0
    then err (element_too_large element_size max_payload)
    else as_slice_count (max (div_ceil element_count (max_payload / element_size)) 1)

-- A slice is read back as it was written: its header, and the payload behind it.
pub decode-encode_slice :
    (h : SliceHeader) (payload : List ℕ)
    → h.frame_seq < 256 ^ 4
    → h.capture_time_us < 256 ^ 8
    → h.slice_count < 256 ^ 2
    → h.slice_index < h.slice_count
    → decode (encode h [] ++ payload) ≡ some (h, payload)
unfolding decode encode to_be_bytes check_index
decode-encode_slice h payload p q r s = ground (
  arith,
  from_be_bytes-to_be_bytes 4 h.frame_seq,
  from_be_bytes-to_be_bytes 8 h.capture_time_us,
  from_be_bytes-to_be_bytes 2 h.slice_index,
  from_be_bytes-to_be_bytes 2 h.slice_count,
)
