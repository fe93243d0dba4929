-- ===== src/Hello.antt =====
-- crates/roboprotocol-core/src/hello.rs: the negotiation of a session's capabilities. A bit mask is
-- the list of its bits, the lowest first, as many as its type has.
pub mod Agreement
use robotele.Prelude.{
  ℕ, ◌+◌, ◌*◌, ◌/◌, ◌%◌, Bool, true, false, not, ◌&&◌, ◌||◌, Option, none, some, List, [], ◌∷◌,
  ◌==◌, if◌then◌else◌, map, min,
}
use robotele.Prelude.Result.{Result, ok, err}

pub record ProtocolVersion : Type 0 where
  pub major : ℕ  -- u8
  pub minor : ℕ  -- u8

-- `(major << 8) | minor`, for a minor below 256.
unfoldable pub encode_version : ProtocolVersion → ℕ
encode_version v = v.major * 256 + v.minor

unfoldable pub decode_version : ℕ → ProtocolVersion
decode_version v = record { major = v / 256 % 256; minor = v % 256 }

pub record HelloCapabilities : Type 0 where
  pub protocol_version : ProtocolVersion
  pub capability_bitmask : List Bool  -- u64
  pub supported_task_classes : List Bool  -- u8
  pub supported_quantization_tiers : List Bool  -- u8
  pub max_control_rate_hz : ℕ  -- u16

pub record NegotiatedSession : Type 0 where
  pub version : ProtocolVersion
  pub capability_bitmask : List Bool
  pub task_classes : List Bool
  pub quantization_tiers : List Bool
  pub max_control_rate_hz : ℕ

pub record IncompatibleVersion : Type 0 where
  pub local_major : ℕ
  pub peer_major : ℕ

-- `&`
abbrev pub and_mask : List Bool → List Bool → List Bool
and_mask [] ys = []
and_mask (x ∷ xs) [] = []
and_mask (x ∷ xs) (y ∷ ys) = (x && y) ∷ and_mask xs ys

-- `!`
abbrev pub not_mask : List Bool → List Bool
not_mask [] = []
not_mask (x ∷ xs) = not x ∷ not_mask xs

-- `!= 0`
abbrev pub any_bit : List Bool → Bool
any_bit [] = false
any_bit (x ∷ xs) = x || any_bit xs

unfoldable pub negotiate :
    HelloCapabilities → HelloCapabilities → Result IncompatibleVersion NegotiatedSession
negotiate local peer =
    let v = local.protocol_version in
    let w = peer.protocol_version in
    if v.major == w.major
    then ok (record {
      version = record { major = v.major; minor = min v.minor w.minor };
      capability_bitmask = and_mask local.capability_bitmask peer.capability_bitmask;
      task_classes = and_mask local.supported_task_classes peer.supported_task_classes;
      quantization_tiers =
          and_mask local.supported_quantization_tiers peer.supported_quantization_tiers;
      max_control_rate_hz = min local.max_control_rate_hz peer.max_control_rate_hz;
    })
    else err (record { local_major = v.major; peer_major = w.major })

unfoldable pub missing_required_capabilities : List Bool → NegotiatedSession → Option (List Bool)
missing_required_capabilities required negotiated =
    let missing = and_mask required (not_mask negotiated.capability_bitmask) in
    if any_bit missing then some missing else none
