-- ===== src/Video/Chunk.antt =====
-- crates/roboprotocol-core/src/video.rs: chunk headers, and the cutting of a NAL unit into chunks.
pub mod Cut
use robotele.Prelude.{
  ℕ, zero, suc, ◌+◌, ◌-◌, ◌/◌, ◌%◌, ◌^◌, ◌<◌, ◌≤◌, ◌≡◌, refl, ap, Bool, true, false, not, ◌||◌,
  Option, none, some, List, [], ◌∷◌, ◌++◌, arith, ltb, ◌==◌, if◌then◌else◌, length, get_or, take,
  drop, take-append-drop, length-drop,
}
use robotele.Prelude.Bytes.{to_be_bytes, from_be_bytes, slice, from_be_bytes-to_be_bytes}

abbrev pub chunk_header_len : ℕ
chunk_header_len = 7

abbrev pub max_chunk_payload : ℕ
max_chunk_payload = 1100

pub record ChunkHeader : Type 0 where
  pub nal_id : ℕ  -- u32
  pub chunk_index : ℕ  -- u16
  pub is_last : Bool

abbrev pub bool_byte : Bool → ℕ
bool_byte true = 1
bool_byte false = 0

-- Appended to `out`.
unfoldable pub encode : ChunkHeader → List ℕ → List ℕ
encode h out =
    out ++ (to_be_bytes 4 h.nal_id ++ (to_be_bytes 2 h.chunk_index ++ bool_byte h.is_last ∷ []))

unfoldable pub decode : List ℕ → Option (ChunkHeader × List ℕ)
decode bytes =
    if ltb (length bytes) chunk_header_len
    then none
    else some (
      record {
        nal_id = from_be_bytes (slice 0 4 bytes);
        chunk_index = from_be_bytes (slice 4 6 bytes);
        is_last = not (get_or bytes 6 0 == 0);
      },
      drop chunk_header_len bytes,
    )

-- The type of a NAL unit: the low five bits of its first byte (`& 0x1F`), if it has one.
abbrev pub nal_type? : List ℕ → Option ℕ
nal_type? [] = none
nal_type? (b ∷ bs) = some (b % 32)

abbrev pub type_is_critical : Option ℕ → Bool
type_is_critical none = false
type_is_critical (some t) = t == 5 || (t == 7 || t == 8)

unfoldable pub nal_is_critical : List ℕ → Bool
nal_is_critical nal = type_is_critical (nal_type? nal)

-- `nal.chunks(size)`, on fuel: the list's length is enough.
unfoldable pub chunks_fuel : ℕ → ℕ → List ℕ → List (List ℕ)
chunks_fuel zero size xs = []
chunks_fuel (suc fuel) size [] = []
chunks_fuel (suc fuel) size (x ∷ xs) =
    take size (x ∷ xs) ∷ chunks_fuel fuel size (drop size (x ∷ xs))

unfoldable pub chunks : ℕ → List ℕ → List (List ℕ)
unfolding chunks_fuel
chunks size xs = chunks_fuel (length xs) size xs

unfoldable pub div_ceil : ℕ → ℕ → ℕ
div_ceil a b = (a + b - 1) / b

-- The pieces with their headers, numbered from `i`.
unfoldable pub number : ℕ → ℕ → ℕ → List (List ℕ) → List (ChunkHeader × List ℕ)
number nal_id n_chunks i [] = []
number nal_id n_chunks i (piece ∷ pieces) =
    (record { nal_id = nal_id; chunk_index = i % 65536; is_last = i + 1 == n_chunks }, piece)
    ∷ number nal_id n_chunks (i + 1) pieces

unfoldable pub frame : List (ChunkHeader × List ℕ) → List (List ℕ)
unfolding encode
frame [] = []
frame ((h, piece) ∷ rest) = (encode h [] ++ piece) ∷ frame rest

unfoldable pub chunk_nal : ℕ → List ℕ → List (List ℕ)
unfolding frame number chunks div_ceil
chunk_nal nal_id [] = []
chunk_nal nal_id (b ∷ bs) = frame (
    number nal_id (div_ceil (length (b ∷ bs)) max_chunk_payload) 0
      (chunks max_chunk_payload (b ∷ bs)))

-- A chunk is read back as it was written: its header, and the payload behind it.
pub decode-encode :
    (h : ChunkHeader) (payload : List ℕ)
    → h.nal_id < 256 ^ 4
    → h.chunk_index < 256 ^ 2
    → decode (encode h [] ++ payload) ≡ some (h, payload)
unfolding decode encode to_be_bytes
decode-encode h payload p q =
    ground (arith, from_be_bytes-to_be_bytes 4 h.nal_id, from_be_bytes-to_be_bytes 2 h.chunk_index)
