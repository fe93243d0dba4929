-- ===== src/Bulk/Header/Wire.antt =====
-- What the header's bytes say: the round trip, and that only the first 24 bytes matter.
use robotele.Prelude.{
  ℕ, ◌-◌, ◌^◌, ◌≤◌, ◌<◌, ◌≡◌, refl, List, ◌++◌, arith, length, length-append, get_or, get_or-append,
  take-append_le, drop-append_le, length-drop, drop, Option, none, some,
}
use robotele.Prelude.Bytes.{to_be_bytes, slice, from_be_bytes-to_be_bytes}
use robotele.Prelude.Result.{ok}
use robotele.Bulk.Header.{
  BulkHeader, BulkKind, from_u8, from_u8-to_u8, encode, decode, decode_kind, max_bulk_object,
  bulk_header_len,
}

-- The fields fit their widths, and the object is not over the limit.
pub record FitsHeader (h : BulkHeader) : Type 0 where
  pub version_fits : h.version < 256 ^ 4
  pub size_fits : h.size ≤ max_bulk_object
  pub time_fits : h.capture_time_us < 256 ^ 8

size_below : (n : ℕ) → n ≤ max_bulk_object → n < 256 ^ 8
size_below n h = omega arith

-- A header is read back as it was written, whatever follows it.
pub decode-encode_header :
    (h : BulkHeader) (rest : List ℕ) → FitsHeader h → decode (encode h ++ rest) ≡ ok h
unfolding decode encode to_be_bytes
decode-encode_header h rest f = rw (from_u8-to_u8 h.kind) (
    ground (
      arith,
      from_be_bytes-to_be_bytes 4 h.version f.version_fits,
      from_be_bytes-to_be_bytes 8 h.size (size_below h.size f.size_fits),
      from_be_bytes-to_be_bytes 8 h.capture_time_us f.time_fits,
    ))

slice-append :
    (from to : ℕ) (xs ys : List ℕ)
    → from ≤ to
    → to ≤ length xs
    → slice from to (xs ++ ys) ≡ slice from to xs
slice-append from to xs ys h g =
    rw (drop-append_le from xs ys (omega arith))
      (take-append_le (to - from) (drop from xs) ys (omega (arith, length-drop from xs)))

decode_kind-append :
    (kind : Option BulkKind) (xs ys : List ℕ)
    → bulk_header_len ≤ length xs
    → decode_kind kind (xs ++ ys) ≡ decode_kind kind xs
decode_kind-append none xs ys h = rw (get_or-append 1 0 xs ys (omega arith)) refl
decode_kind-append (some kind) xs ys h =
    rw
      (
        get_or-append 2 0 xs ys (omega arith),
        get_or-append 3 0 xs ys (omega arith),
        slice-append 4 8 xs ys (omega arith) (omega arith),
        slice-append 8 16 xs ys (omega arith) (omega arith),
        slice-append 16 24 xs ys (omega arith) (omega arith),
      )
      refl

-- The header does not depend on the bytes behind it.
pub decode-append : (xs ys : List ℕ) → bulk_header_len ≤ length xs → decode (xs ++ ys) ≡ decode xs
unfolding decode
decode-append xs ys h = ground (
  arith,
  length-append xs ys,
  get_or-append 0 0 xs ys (omega arith),
  get_or-append 1 0 xs ys (omega arith),
  decode_kind-append (from_u8 (get_or xs 1 0)) xs ys h,
)
