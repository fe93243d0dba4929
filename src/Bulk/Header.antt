-- ===== src/Bulk/Header.antt =====
-- crates/roboprotocol-core/src/bulk.rs: the header of a bulk stream.
pub mod Wire
use robotele.Prelude.{
  ◌≡◌, refl, sym, ap, ◌∙◌, ◌↔◌, ==_iff, arith, ℕ, ◌%◌, Bool, true, false, ◌&&◌, Option, none, some,
  List, [], ◌∷◌, ◌++◌, ltb, ◌==◌, if◌then◌else◌, length, get_or,
}
use robotele.Prelude.Bytes.{to_be_bytes, from_be_bytes, slice}
use robotele.Prelude.Assoc.{Eq}
use robotele.Prelude.Result.{Result, ok, err}

abbrev pub bulk_format : ℕ
bulk_format = 1

abbrev pub bulk_header_len : ℕ
bulk_header_len = 24

abbrev pub max_bulk_object : ℕ
max_bulk_object = 67_108_864

pub data BulkKind : Type 0 where
  occupancy_grid keyframe_cloud depth_snapshot blob : BulkKind

abbrev pub to_u8 : BulkKind → ℕ
to_u8 occupancy_grid = 1
to_u8 keyframe_cloud = 2
to_u8 depth_snapshot = 3
to_u8 blob = 255

abbrev pub from_u8 : ℕ → Option BulkKind
from_u8 v =
    if v == 1
    then some occupancy_grid
    else if v == 2
    then some keyframe_cloud
    else if v == 3
    then some depth_snapshot
    else if v == 255
    then some blob
    else none

pub record BulkHeader : Type 0 where
  pub kind : BulkKind
  pub source_id : ℕ  -- u8
  pub encoding : ℕ  -- u8
  pub version : ℕ  -- u32
  pub size : ℕ  -- u64, `length` in the source
  pub capture_time_us : ℕ  -- u64

pub data BulkError : Type 0 where
  short_header : BulkError
  unknown_format unknown_kind too_large : ℕ → BulkError
  too_long : BulkError
  truncated : (got expected : ℕ) → BulkError

unfoldable pub encode : BulkHeader → List ℕ
encode h =
    bulk_format
    ∷ to_u8 h.kind
    ∷ h.source_id
    ∷ h.encoding
    ∷ (to_be_bytes 4 h.version ++ (to_be_bytes 8 h.size ++ to_be_bytes 8 h.capture_time_us))

-- The rest of `decode`, once the kind is known.
abbrev pub decode_kind : Option BulkKind → List ℕ → Result BulkError BulkHeader
decode_kind none bytes = err (unknown_kind (get_or bytes 1 0))
decode_kind (some kind) bytes =
    let size = from_be_bytes (slice 8 16 bytes) in
    if ltb max_bulk_object size
    then err (too_large size)
    else ok (record {
      kind = kind;
      source_id = get_or bytes 2 0;
      encoding = get_or bytes 3 0;
      version = from_be_bytes (slice 4 8 bytes);
      size = size;
      capture_time_us = from_be_bytes (slice 16 24 bytes);
    })

unfoldable pub decode : List ℕ → Result BulkError BulkHeader
decode bytes =
    if ltb (length bytes) bulk_header_len
    then err short_header
    else if get_or bytes 0 0 == bulk_format
    then decode_kind (from_u8 (get_or bytes 1 0)) bytes
    else err (unknown_format (get_or bytes 0 0))

abbrev pub key : BulkHeader → BulkKind × ℕ
key h = (h.kind, h.source_id)

-- Server-initiated unidirectional streams (RFC 9000, 2.1).
unfoldable pub is_bulk_stream : ℕ → Bool
is_bulk_stream stream_id = stream_id % 4 == 3

pub from_u8-to_u8 : (k : BulkKind) → from_u8 (to_u8 k) ≡ some k
from_u8-to_u8 occupancy_grid = refl
from_u8-to_u8 keyframe_cloud = refl
from_u8-to_u8 depth_snapshot = refl
from_u8-to_u8 blob = refl

to_u8_injective : (j k : BulkKind) → to_u8 j ≡ to_u8 k → j ≡ k
to_u8_injective j k h =
    let e : some j ≡ some k = sym (from_u8-to_u8 j) ∙ ap from_u8 h ∙ from_u8-to_u8 k in cc

unfoldable pub beq_key : BulkKind × ℕ → BulkKind × ℕ → Bool
beq_key (j, a) (k, b) = to_u8 j == to_u8 k && a == b

pub beq_key_iff : (x y : BulkKind × ℕ) → (beq_key x y ≡ true) ↔ (x ≡ y)
unfolding beq_key
beq_key_iff (j, a) (k, b) = (
  λ h. ground (arith, ==_iff (to_u8 j) (to_u8 k), ==_iff a b, to_u8_injective j k),
  λ e. ground (arith, ==_iff (to_u8 j) (to_u8 k), ==_iff a b),
)

instance abbrev pub key_eq : Eq (BulkKind × ℕ)
key_eq = record { beq = beq_key; beq_iff = beq_key_iff }
