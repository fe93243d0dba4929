-- ===== src/ChannelB/Fields.antt =====
-- crates/roboprotocol-core/src/profile.rs: one field of a command in the width of a tier.
use robotele.Prelude.{
  ℕ, ◌-◌, ◌%◌, ◌^◌, ◌<◌, ◌≡◌, refl, ap, Bool, true, Option, none, some, List, [], ◌∷◌, arith, ltb,
  leb, ◌==◌, if◌then◌else◌, length,
}
use robotele.Prelude.Bytes.{
  to_be_bytes, from_be_bytes, from_be_bytes-to_be_bytes, length-to_be_bytes,
}
use robotele.Prelude.Chain.{◌>>=◌}
use robotele.Bulk.Grid.{ℤ, pos, negsuc}
use robotele.Layout.Sizing.{QuantizationTier, compact, standard, full, bytes_per_field}
use robotele.Sensor.Float.{to_u16, as_i16, is_i16, as_i16-to_u16, to_u16-lt}

abbrev pub is_i8 : ℤ → Bool
is_i8 (pos n) = leb n 127
is_i8 (negsuc n) = leb n 127

-- The f32 of the fields, as an interface, with what the code relies on.
pub record FieldFloat : Type 1 where
  pub F : Type 0
  pub zero_float : F
  pub one_float : F
  pub half : F
  pub hundred : F
  pub mul : F → F → F
  pub div : F → F → F
  -- `to_be_bytes` and `from_be_bytes` of an f32 are those of its 32 bits.
  pub to_bits : F → ℕ
  pub from_bits : ℕ → F
  -- `v.round().clamp(MIN, MAX) as i8` and `as i16` (the cast saturates, so `v.round() as i16` is the
  -- same), and the cast alone.
  pub round_i8 : F → ℤ
  pub round_i16 : F → ℤ
  pub cast_i16 : F → ℤ
  -- `v.round() as u8`
  pub round_u8 : F → ℕ
  pub of_int : ℤ → F
  pub to_bits-lt : (v : F) → to_bits v < 2 ^ 32
  pub from_bits-to_bits : (v : F) → from_bits (to_bits v) ≡ v
  pub round_i8_fits : (v : F) → is_i8 (round_i8 v) ≡ true
  pub round_i16_fits : (v : F) → is_i16 (round_i16 v) ≡ true
  -- A whole number in range is kept by a multiplication and a division by one, and by the casts.
  pub round_whole : (q : ℤ) → is_i16 q ≡ true → round_i16 (mul (of_int q) one_float) ≡ q
  pub cast_whole : (q : ℤ) → is_i16 q ≡ true → cast_i16 (div (of_int q) one_float) ≡ q
  pub round_byte : (n : ℕ) → n < 256 → round_u8 (of_int (pos n)) ≡ n

unfoldable pub to_u8 : ℤ → ℕ
to_u8 (pos n) = n
to_u8 (negsuc n) = 256 - n - 1

unfoldable pub as_i8 : ℕ → ℤ
as_i8 w = if ltb w 128 then pos w else negsuc (256 - w - 1)

as_i8-to_u8 : (q : ℤ) → is_i8 q ≡ true → as_i8 (to_u8 q) ≡ q
unfolding as_i8 to_u8
as_i8-to_u8 (pos n) h = ground arith
as_i8-to_u8 (negsuc n) h = ground arith

module _ (float : FieldFloat) where
  open float use {
    F, mul, div, to_bits, from_bits, round_i8, round_i16, round_u8, of_int, to_bits-lt,
    from_bits-to_bits, round_i8_fits, round_i16_fits, round_byte,
  }

  unfoldable pub pack_scaled : F → F → QuantizationTier → List ℕ
  pack_scaled value scale compact = to_u8 (round_i8 (mul value scale)) ∷ []
  pack_scaled value scale standard = to_be_bytes 2 (to_u16 (round_i16 (mul value scale)))
  pack_scaled value scale full = to_be_bytes 4 (to_bits value)

  abbrev pub first_byte : List ℕ → Option ℕ
  first_byte [] = none
  first_byte (b ∷ bs) = some b

  -- `field.try_into()`: an array of `n` bytes.
  abbrev pub exactly : ℕ → List ℕ → Option (List ℕ)
  exactly n field = if length field == n then some field else none

  unfoldable pub unpack_scaled : List ℕ → F → QuantizationTier → Option F
  unpack_scaled field scale compact = do b ← first_byte field; some (div (of_int (as_i8 b)) scale)
  unpack_scaled field scale standard = do
    f ← exactly 2 field
    some (div (of_int (as_i16 (from_be_bytes f))) scale)
  unpack_scaled field scale full = do f ← exactly 4 field; some (from_bits (from_be_bytes f))

  unfoldable pub pack_u8 : ℕ → QuantizationTier → List ℕ
  pack_u8 value compact = value ∷ []
  pack_u8 value standard = to_be_bytes 2 value
  pack_u8 value full = to_be_bytes 4 (to_bits (of_int (pos value)))

  unfoldable pub unpack_u8 : List ℕ → QuantizationTier → Option ℕ
  unpack_u8 field compact = first_byte field
  unpack_u8 field standard = do f ← exactly 2 field; some (from_be_bytes f % 256)
  unpack_u8 field full = do f ← exactly 4 field; some (round_u8 (from_bits (from_be_bytes f)))

  -- The value that a field has on the other side: exact at the full tier.
  unfoldable pub on_wire : F → F → QuantizationTier → F
  on_wire value scale compact = div (of_int (round_i8 (mul value scale))) scale
  on_wire value scale standard = div (of_int (round_i16 (mul value scale))) scale
  on_wire value scale full = value

  pub length-pack_scaled :
      (value scale : F) (tier : QuantizationTier)
      → length (pack_scaled value scale tier) ≡ bytes_per_field tier
  unfolding pack_scaled to_be_bytes
  length-pack_scaled value scale compact = refl
  length-pack_scaled value scale standard = refl
  length-pack_scaled value scale full = refl

  pub length-pack_u8 :
      (value : ℕ) (tier : QuantizationTier) → length (pack_u8 value tier) ≡ bytes_per_field tier
  unfolding pack_u8 to_be_bytes
  length-pack_u8 value compact = refl
  length-pack_u8 value standard = refl
  length-pack_u8 value full = refl

  pub unpack-pack_scaled :
      (value scale : F) (tier : QuantizationTier)
      → unpack_scaled (pack_scaled value scale tier) scale tier ≡ some (on_wire value scale tier)
  unfolding pack_scaled unpack_scaled on_wire
  unpack-pack_scaled value scale compact =
      ap (λ q. some (div (of_int q) scale))
        (as_i8-to_u8 (round_i8 (mul value scale)) (round_i8_fits (mul value scale)))
  unpack-pack_scaled value scale standard =
      let q : ℤ = round_i16 (mul value scale) in
      let fits : is_i16 q ≡ true = round_i16_fits (mul value scale) in
      rw (
        length-to_be_bytes 2 (to_u16 q),
        from_be_bytes-to_be_bytes 2 (to_u16 q) (to_u16-lt q fits),
        as_i16-to_u16 q fits,
      )
  unpack-pack_scaled value scale full = rw (
    length-to_be_bytes 4 (to_bits value),
    from_be_bytes-to_be_bytes 4 (to_bits value) (to_bits-lt value),
    from_bits-to_bits value,
  )

  pub unpack-pack_u8 :
      (value : ℕ) (tier : QuantizationTier)
      → value < 256
      → unpack_u8 (pack_u8 value tier) tier ≡ some value
  unfolding pack_u8 unpack_u8
  unpack-pack_u8 value compact h = refl
  unpack-pack_u8 value standard h =
      rw (length-to_be_bytes 2 value, from_be_bytes-to_be_bytes 2 value (omega (arith, h)))
        (ap some (omega (arith, h)))
  unpack-pack_u8 value full h =
      let v : F = of_int (pos value) in
      rw
        (
          length-to_be_bytes 4 (to_bits v),
          from_be_bytes-to_be_bytes 4 (to_bits v) (to_bits-lt v),
          from_bits-to_bits v,
        )
        (ap some (round_byte value h))
