-- ===== src/Wire/Datagram.antt =====
-- crates/roboprotocol-core/src/datagram.rs: the type tag of a QUIC datagram. A byte is a number.
use robotele.Prelude.{ℕ, ◌≡◌, ◌⊎◌, Option, none, some, List, [], ◌∷◌}

abbrev pub tag_channel_b : ℕ
tag_channel_b = 0x01

abbrev pub tag_channel_a : ℕ
tag_channel_a = 0x02

abbrev pub tag_heartbeat : ℕ
tag_heartbeat = 0x03

abbrev pub tag_sensor_slice : ℕ
tag_sensor_slice = 0x04

abbrev pub tag_topic : ℕ
tag_topic = 0x05

abbrev pub tag_bench_raw : ℕ
tag_bench_raw = 0x7F

unfoldable pub tag : ℕ → List ℕ → List ℕ
tag tag_byte payload = tag_byte ∷ payload

unfoldable pub untag : List ℕ → Option (ℕ × List ℕ)
untag [] = none
untag (t ∷ rest) = some (t, rest)

-- The tags that the module declares.
abbrev pub IsTag : ℕ → Type 0
IsTag t =
    (t ≡ tag_channel_b)
    ⊎ (t ≡ tag_channel_a)
    ⊎ (t ≡ tag_heartbeat)
    ⊎ (t ≡ tag_sensor_slice)
    ⊎ (t ≡ tag_topic)
    ⊎ (t ≡ tag_bench_raw)
