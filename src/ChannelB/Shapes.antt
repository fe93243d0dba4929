-- ===== src/ChannelB/Shapes.antt =====
-- crates/roboprotocol-core/src/profile.rs: the two command shapes in bytes.
pub mod Unpacked
use robotele.Prelude.{ℕ, ◌*◌, Option, none, some, List, [], ◌∷◌, ◌++◌, ltb, if◌then◌else◌, length}
use robotele.Prelude.Chain.{◌>>=◌}
use robotele.Layout.Sizing.{QuantizationTier, compact, standard, full, bytes_per_field}
use robotele.Sensor.Interleave.{chunks_exact}
use robotele.ChannelB.Fields.{FieldFloat, pack_scaled, unpack_scaled, pack_u8, unpack_u8}

module _ (float : FieldFloat) where
  open float use {F, one_float, half, hundred}

  pub record VelocityAttitudeCommand : Type 0 where
    pub vx : F
    pub vy : F
    pub turn : F
    pub roll : F
    pub pitch : F
    pub yaw : F

  abbrev pub continuous_scale : QuantizationTier → F
  continuous_scale compact = one_float
  continuous_scale standard = hundred
  continuous_scale full = one_float

  pub record CartesianCommand : Type 0 where
    pub x : F
    pub y : F
    pub z : F
    pub gripper : ℕ  -- u8

  abbrev pub position_scale : QuantizationTier → F
  position_scale compact = half
  position_scale standard = one_float
  position_scale full = one_float

  unfoldable pub pack_fields : List F → F → QuantizationTier → List ℕ
  pack_fields [] scale tier = []
  pack_fields (v ∷ vs) scale tier = pack_scaled float v scale tier ++ pack_fields vs scale tier

  -- `unpack_scaled(fields.next()?, …)?` and the fields that are left.
  unfoldable pub next_scaled : List (List ℕ) → F → QuantizationTier → Option (F × List (List ℕ))
  next_scaled [] scale tier = none
  next_scaled (field ∷ fields) scale tier = do
    v ← unpack_scaled float field scale tier
    some (v, fields)

  unfoldable pub next_u8 : List (List ℕ) → QuantizationTier → Option ℕ
  next_u8 [] tier = none
  next_u8 (field ∷ fields) tier = unpack_u8 float field tier

  unfoldable pub pack_velocity : VelocityAttitudeCommand → QuantizationTier → List ℕ
  pack_velocity c tier =
      pack_fields (c.vx ∷ c.vy ∷ c.turn ∷ c.roll ∷ c.pitch ∷ c.yaw ∷ []) (continuous_scale tier)
        tier

  unfoldable pub read_velocity :
      List (List ℕ) → F → QuantizationTier → Option VelocityAttitudeCommand
  read_velocity fields scale tier = do
    a ← next_scaled fields scale tier
    b ← next_scaled a.1 scale tier
    c ← next_scaled b.1 scale tier
    d ← next_scaled c.1 scale tier
    e ← next_scaled d.1 scale tier
    f ← next_scaled e.1 scale tier
    some (record { vx = a.0; vy = b.0; turn = c.0; roll = d.0; pitch = e.0; yaw = f.0 })

  unfoldable pub unpack_velocity : List ℕ → QuantizationTier → Option VelocityAttitudeCommand
  unpack_velocity bytes tier =
      if ltb (length bytes) (6 * bytes_per_field tier)
      then none
      else read_velocity (chunks_exact (bytes_per_field tier) bytes) (continuous_scale tier) tier

  unfoldable pub pack_cartesian : CartesianCommand → QuantizationTier → List ℕ
  pack_cartesian c tier =
      pack_fields (c.x ∷ c.y ∷ c.z ∷ []) (position_scale tier) tier ++ pack_u8 float c.gripper tier

  unfoldable pub read_cartesian : List (List ℕ) → F → QuantizationTier → Option CartesianCommand
  read_cartesian fields scale tier = do
    a ← next_scaled fields scale tier
    b ← next_scaled a.1 scale tier
    c ← next_scaled b.1 scale tier
    d ← next_u8 c.1 tier
    some (record { x = a.0; y = b.0; z = c.0; gripper = d })

  unfoldable pub unpack_cartesian : List ℕ → QuantizationTier → Option CartesianCommand
  unpack_cartesian bytes tier =
      if ltb (length bytes) (4 * bytes_per_field tier)
      then none
      else read_cartesian (chunks_exact (bytes_per_field tier) bytes) (position_scale tier) tier

  unfoldable pub pack_velocity_standard : VelocityAttitudeCommand → List ℕ
  unfolding pack_velocity
  pack_velocity_standard c = pack_velocity c standard

  unfoldable pub unpack_velocity_standard : List ℕ → Option VelocityAttitudeCommand
  unfolding unpack_velocity
  unpack_velocity_standard bytes = unpack_velocity bytes standard

  unfoldable pub pack_cartesian_standard : CartesianCommand → List ℕ
  unfolding pack_cartesian
  pack_cartesian_standard c = pack_cartesian c standard

  unfoldable pub unpack_cartesian_standard : List ℕ → Option CartesianCommand
  unfolding unpack_cartesian
  unpack_cartesian_standard bytes = unpack_cartesian bytes standard
