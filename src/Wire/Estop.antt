-- ===== src/Wire/Estop.antt =====
-- crates/roboprotocol-core/src/estop.rs: the raw 10-byte E-Stop datagram.
use robotele.Prelude.{
  ℕ, ◌^◌, ◌<◌, ◌≡◌, ◌≢◌, ◌↔◌, ◌⊎◌, refl, Bool, true, false, not, ◌||◌, Option, none, some, List,
  ◌∷◌, ◌++◌, arith, ltb, ◌==◌, if◌then◌else◌, length, get_or,
}
use robotele.Prelude.Bytes.{to_be_bytes, from_be_bytes, slice, from_be_bytes-to_be_bytes}
use robotele.Wire.Datagram.{tag, untag, IsTag}

abbrev pub estop_datagram_magic : ℕ
estop_datagram_magic = 0xE5

abbrev pub estop_datagram_len : ℕ
estop_datagram_len = 10

pub record EstopDatagram : Type 0 where
  pub latched : Bool
  pub seq : ℕ  -- u64

abbrev pub bool_byte : Bool → ℕ
bool_byte true = 1
bool_byte false = 0

unfoldable pub encode : EstopDatagram → List ℕ
encode d = estop_datagram_magic ∷ bool_byte d.latched ∷ to_be_bytes 8 d.seq

unfoldable pub decode : List ℕ → Option EstopDatagram
decode bytes =
    if ltb (length bytes) estop_datagram_len || not (get_or bytes 0 0 == estop_datagram_magic)
    then none
    else some
        (record { latched = not (get_or bytes 1 0 == 0); seq = from_be_bytes (slice 2 10 bytes) })

-- A datagram is read back as it was written, whatever bytes follow it.
pub decode-encode :
    (d : EstopDatagram) (rest : List ℕ) → d.seq < 256 ^ 8 → decode (encode d ++ rest) ≡ some d
unfolding decode encode to_be_bytes
decode-encode d rest h = ground (arith, from_be_bytes-to_be_bytes 8 d.seq)

-- What is refused: exactly what is too short or begins with another byte.
pub decode-none_iff :
    (bytes : List ℕ)
    → (decode bytes ≡ none)
      ↔ ((length bytes < estop_datagram_len) ⊎ (get_or bytes 0 0 ≢ estop_datagram_magic))
unfolding decode
decode-none_iff bytes = (λ h. ground arith, λ h. ground arith)

-- No other datagram is taken for an E-Stop: each one that carries a tag of `datagram` is refused,
-- whatever its payload, and is untagged to what was sent.
pub decode-tag :
    (t : ℕ) (payload : List ℕ)
    → IsTag t
    → (decode (tag t payload) ≡ none) × (untag (tag t payload) ≡ some (t, payload))
unfolding decode tag untag
decode-tag t payload h = (ground arith, refl)
