-- ===== src/ChannelB/Shapes/Unpacked.antt =====
-- crates/roboprotocol-core/src/profile.rs: what a command of a shape is read as.
use mathlib.Core.List.{append_assoc}
use robotele.Prelude.{
  ℕ, ◌*◌, ◌<◌, ◌≡◌, false, some, List, [], ◌∷◌, ◌++◌, arith, ltb, length, length-append,
}
use robotele.Layout.Sizing.{QuantizationTier, compact, standard, full, bytes_per_field}
use robotele.Sensor.Interleave.{chunks_exact}
use robotele.Sensor.Interleave.Elements.{chunks_exact-append}
use robotele.ChannelB.Fields.{
  FieldFloat, pack_scaled, pack_u8, on_wire, unpack-pack_scaled, unpack-pack_u8, length-pack_scaled,
  length-pack_u8,
}
use robotele.ChannelB.Shapes.{
  VelocityAttitudeCommand, CartesianCommand, continuous_scale, position_scale, pack_fields,
  next_scaled, next_u8, pack_velocity, unpack_velocity, read_velocity, pack_cartesian,
  unpack_cartesian, read_cartesian,
}

module _ (float : FieldFloat) where
  open float use {F}

  width_pos : (tier : QuantizationTier) → 0 < bytes_per_field tier
  width_pos compact = omega arith
  width_pos standard = omega arith
  width_pos full = omega arith

  next_scaled_lem :
      (v : F) (vs : List F) (rest : List ℕ) (scale : F) (tier : QuantizationTier)
      → next_scaled float
          (chunks_exact (bytes_per_field tier) (pack_fields float (v ∷ vs) scale tier ++ rest))
          scale
          tier
        ≡ some (
          on_wire float v scale tier,
          chunks_exact (bytes_per_field tier) (pack_fields float vs scale tier ++ rest),
        )
  unfolding next_scaled pack_fields
  next_scaled_lem v vs rest scale tier = rw (
    append_assoc (pack_scaled float v scale tier) (pack_fields float vs scale tier) rest,
    chunks_exact-append (bytes_per_field tier) (pack_scaled float v scale tier)
        (pack_fields float vs scale tier ++ rest) (width_pos tier)
        (length-pack_scaled float v scale tier),
    unpack-pack_scaled float v scale tier,
  )

  next_u8_lem :
      (n : ℕ) (rest : List ℕ) (tier : QuantizationTier)
      → n < 256
      → next_u8 float (chunks_exact (bytes_per_field tier) (pack_u8 float n tier ++ rest)) tier
        ≡ some n
  unfolding next_u8
  next_u8_lem n rest tier h =
      rw
        (chunks_exact-append (bytes_per_field tier) (pack_u8 float n tier) rest (width_pos tier)
          (length-pack_u8 float n tier))
        (unpack-pack_u8 float n tier h)

  length-pack_fields :
      (vs : List F) (scale : F) (tier : QuantizationTier)
      → length (pack_fields float vs scale tier) ≡ length vs * bytes_per_field tier
  unfolding pack_fields
  length-pack_fields [] scale tier = omega arith
  length-pack_fields (v ∷ vs) scale tier = grind (
    arith,
    length-append (pack_scaled float v scale tier) (pack_fields float vs scale tier),
    length-pack_scaled float v scale tier,
    length-pack_fields vs scale tier,
  )

  -- A velocity command as it arrives.
  abbrev pub velocity_on_wire :
      VelocityAttitudeCommand float → QuantizationTier → VelocityAttitudeCommand float
  velocity_on_wire c tier =
      let s : F = continuous_scale float tier in
      record {
        vx = on_wire float c.vx s tier;
        vy = on_wire float c.vy s tier;
        turn = on_wire float c.turn s tier;
        roll = on_wire float c.roll s tier;
        pitch = on_wire float c.pitch s tier;
        yaw = on_wire float c.yaw s tier;
      }

  pub length-pack_velocity :
      (c : VelocityAttitudeCommand float) (tier : QuantizationTier)
      → length (pack_velocity float c tier) ≡ 6 * bytes_per_field tier
  unfolding pack_velocity
  length-pack_velocity c tier =
      length-pack_fields (c.vx ∷ c.vy ∷ c.turn ∷ c.roll ∷ c.pitch ∷ c.yaw ∷ [])
        (continuous_scale float tier) tier

  -- A packed velocity command, with any bytes after it, is unpacked to the same command with each
  -- field rounded as its tier carries it.
  pub unpack-pack_velocity :
      (c : VelocityAttitudeCommand float) (tier : QuantizationTier) (rest : List ℕ)
      → unpack_velocity float (pack_velocity float c tier ++ rest) tier
        ≡ some (velocity_on_wire c tier)
  unfolding unpack_velocity read_velocity pack_velocity
  unpack-pack_velocity c tier rest =
      let s : F = continuous_scale float tier in
      let enough : ltb (length (pack_velocity float c tier ++ rest)) (6 * bytes_per_field tier)
          ≡ false =
        grind
          (arith, length-append (pack_velocity float c tier) rest, length-pack_velocity c tier) in
      rw (
        enough,
        next_scaled_lem c.vx (c.vy ∷ c.turn ∷ c.roll ∷ c.pitch ∷ c.yaw ∷ []) rest s tier,
        next_scaled_lem c.vy (c.turn ∷ c.roll ∷ c.pitch ∷ c.yaw ∷ []) rest s tier,
        next_scaled_lem c.turn (c.roll ∷ c.pitch ∷ c.yaw ∷ []) rest s tier,
        next_scaled_lem c.roll (c.pitch ∷ c.yaw ∷ []) rest s tier,
        next_scaled_lem c.pitch (c.yaw ∷ []) rest s tier,
        next_scaled_lem c.yaw [] rest s tier,
      )

  -- An end-effector command as it arrives.
  abbrev pub cartesian_on_wire : CartesianCommand float → QuantizationTier → CartesianCommand float
  cartesian_on_wire c tier =
      let s : F = position_scale float tier in
      record {
        x = on_wire float c.x s tier;
        y = on_wire float c.y s tier;
        z = on_wire float c.z s tier;
        gripper = c.gripper;
      }

  pub length-pack_cartesian :
      (c : CartesianCommand float) (tier : QuantizationTier)
      → length (pack_cartesian float c tier) ≡ 4 * bytes_per_field tier
  unfolding pack_cartesian
  length-pack_cartesian c tier =
      let fields : List ℕ =
        pack_fields float (c.x ∷ c.y ∷ c.z ∷ []) (position_scale float tier) tier in
      grind (
        arith,
        length-append fields (pack_u8 float c.gripper tier),
        length-pack_fields (c.x ∷ c.y ∷ c.z ∷ []) (position_scale float tier) tier,
        length-pack_u8 float c.gripper tier,
      )

  -- A packed end-effector command, with any bytes after it, is unpacked to the same command with
  -- each coordinate rounded as its tier carries it and the gripper as it was.
  pub unpack-pack_cartesian :
      (c : CartesianCommand float) (tier : QuantizationTier) (rest : List ℕ)
      → c.gripper < 256
      → unpack_cartesian float (pack_cartesian float c tier ++ rest) tier
        ≡ some (cartesian_on_wire c tier)
  unfolding unpack_cartesian read_cartesian pack_cartesian pack_fields
  unpack-pack_cartesian c tier rest h =
      let s : F = position_scale float tier in
      let last : List ℕ = pack_u8 float c.gripper tier in
      let enough : ltb (length (pack_cartesian float c tier ++ rest)) (4 * bytes_per_field tier)
          ≡ false =
        grind
          (arith, length-append (pack_cartesian float c tier) rest, length-pack_cartesian c tier) in
      rw (
        enough,
        append_assoc (pack_fields float (c.x ∷ c.y ∷ c.z ∷ []) s tier) last rest,
        next_scaled_lem c.x (c.y ∷ c.z ∷ []) (last ++ rest) s tier,
        next_scaled_lem c.y (c.z ∷ []) (last ++ rest) s tier,
        next_scaled_lem c.z [] (last ++ rest) s tier,
        next_u8_lem c.gripper rest tier h,
      )
