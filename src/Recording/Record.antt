-- ===== src/Recording/Record.antt =====
-- crates/roboprotocol-core/src/recording.rs: the framing of records in a segment file.
pub mod Torn
use robotele.Prelude.{
  ℕ, zero, suc, ◌+◌, ◌-◌, ◌%◌, ◌^◌, Option, none, some, List, [], ◌∷◌, ◌++◌, ltb, if◌then◌else◌,
  length, get_or, drop,
}
use robotele.Prelude.Bytes.{to_be_bytes, from_be_bytes, slice}
use robotele.Safety.Arbitration.{
  ControlSource, e_stop, emergency_safe_parking, active_impedance_hold, full_teleoperation,
  semi_autonomous,
}

abbrev pub control_source_sentinel : ℕ
control_source_sentinel = 0xFF

unfoldable pub control_source_byte : ControlSource → ℕ
control_source_byte e_stop = 0
control_source_byte emergency_safe_parking = 1
control_source_byte active_impedance_hold = 2
control_source_byte full_teleoperation = 3
control_source_byte semi_autonomous = 4

abbrev pub header_len : ℕ
header_len = 13

pub record RecordHeader : Type 0 where
  pub capture_us : ℕ  -- u64
  pub control_source : ℕ  -- u8

-- `payload.len() as u32` drops the high bits.
unfoldable pub encode_record : RecordHeader → List ℕ → List ℕ → List ℕ
encode_record header payload out =
    out
    ++ (to_be_bytes 4 (length payload % 2 ^ 32)
        ++ (to_be_bytes 8 header.capture_us ++ header.control_source ∷ payload))

-- `RecordIter::next`: the record and the rest of the buffer, or the end.
unfoldable pub next : List ℕ → Option ((RecordHeader × List ℕ) × List ℕ)
next buf =
    let record_len = from_be_bytes (slice 0 4 buf) in
    let header : RecordHeader = record {
      capture_us = from_be_bytes (slice 4 12 buf);
      control_source = get_or buf 12 0;
    } in
    let total = header_len + record_len in
    if ltb (length buf) header_len
    then none
    else if ltb (length buf) total
    then none
    else some ((header, slice header_len total buf), drop total buf)

-- The iterator run to its end, on fuel; the length of the buffer is enough.
unfoldable pub decode_fuel : ℕ → List ℕ → List (RecordHeader × List ℕ)
decode_fuel zero buf = []
decode_fuel (suc fuel) buf = elim (next buf) [
  | none ↦ []
  | some (r, rest) ↦ r ∷ decode_fuel fuel rest
]

unfoldable pub decode_records : List ℕ → List (RecordHeader × List ℕ)
unfolding decode_fuel
decode_records buf = decode_fuel (length buf) buf
