-- ===== src/Tests/ChannelB.antt =====
-- The theorems on Channel B at concrete inputs: floats are whole numbers of 16 bits.
use mathlib.Core.Bool.{Bool-set}
use std.HLevel.{Σ_prop_path}
use robotele.Prelude.{
  ℕ, ◌<◌, ◌^◌, ◌%◌, ◌≡◌, refl, ap, ◌∙◌, true, false, some, [], ◌∷◌, ◌++◌, arith, if◌then◌else◌,
  Bool-cases, ◌⊎◌, inl, inr,
}
use robotele.Bulk.Grid.{ℤ, pos, negsuc}
use robotele.Sensor.Float.{to_u16, as_i16, is_i16, as_i16-to_u16, to_u16-lt}
use robotele.ChannelB.Fields.{FieldFloat, is_i8}
use robotele.ChannelB.Robot
use robotele.ChannelB.Operator
use robotele.ChannelB.Exchange.{arriving, unpack-pack_command, reported, unpack-pack_telemetry}

abbrev Whole : Type 0
Whole = (q : ℤ) × (is_i16 q ≡ true)

abbrev or_zero : (q : ℤ) → (is_i16 q ≡ true) ⊎ (is_i16 q ≡ false) → Whole
or_zero q (inl e) = (q, e)
or_zero q (inr e) = (pos 0, refl)

abbrev whole_of : ℤ → Whole
whole_of q = or_zero q (Bool-cases (is_i16 q))

whole_of-kept : (q : ℤ) → is_i16 q ≡ true → (whole_of q).0 ≡ q
whole_of-kept q h = kept (Bool-cases (is_i16 q))
  where
    kept : (c : (is_i16 q ≡ true) ⊎ (is_i16 q ≡ false)) → (or_zero q c).0 ≡ q
    kept (inl e) = refl
    kept (inr e) = absurd (cc (h, e))

whole_back : (v : Whole) → whole_of (as_i16 (to_u16 v.0)) ≡ v
whole_back v =
    Σ_prop_path (λ q. Bool-set (is_i16 q) true)
      (ap (λ q. (whole_of q).0) (as_i16-to_u16 v.0 v.1) ∙ whole_of-kept v.0 v.1)

abbrev byte_of : ℤ → ℕ
byte_of (pos n) = n % 256
byte_of (negsuc n) = 0

abbrev small : ℤ → ℤ
small q = if is_i8 q then q else pos 0

small_fits : (q : ℤ) → is_i8 (small q) ≡ true
small_fits q = elim (Bool-cases (is_i8 q)) [ inl e ↦ rw e e | inr e ↦ rw e refl ]

in_word : (n : ℕ) → n < 65536 → n < 2 ^ 32
in_word n h = omega (arith, h)

in_range : (n : ℕ) → n < 256 → is_i16 (pos n) ≡ true
in_range n h = ground (arith, h)

byte_back : (n : ℕ) → n < 256 → byte_of (whole_of (pos n)).0 ≡ n
byte_back n h = ap byte_of (whole_of-kept (pos n) (in_range n h)) ∙ omega (arith, h)

abbrev whole_floats : FieldFloat
whole_floats = record {
  F = Whole;
  zero_float = (pos 0, refl);
  one_float = (pos 1, refl);
  half = (pos 1, refl);
  hundred = (pos 100, refl);
  mul = λ a b. a;
  div = λ a b. a;
  to_bits = λ v. to_u16 v.0;
  from_bits = λ w. whole_of (as_i16 w);
  round_i8 = λ v. small v.0;
  round_i16 = λ v. v.0;
  cast_i16 = λ v. v.0;
  round_u8 = λ v. byte_of v.0;
  of_int = whole_of;
  to_bits-lt = λ v. in_word (to_u16 v.0) (to_u16-lt v.0 v.1);
  from_bits-to_bits = whole_back;
  round_i8_fits = λ v. small_fits v.0;
  round_i16_fits = λ v. v.1;
  round_whole = whole_of-kept;
  cast_whole = whole_of-kept;
  round_byte = byte_back;
}

abbrev drive : Operator.TeleopCommand whole_floats
drive = record {
  vx = (pos 12, refl);
  vy = (negsuc 2, refl);
  turn = (pos 20, refl);
  attitude_r = (pos 1, refl);
  attitude_p = (negsuc 1, refl);
  attitude_y = (pos 0, refl);
  arm_x = pos 40;
  arm_z = negsuc 9;
  claw = 200;
}

unpack-pack_command_example :
    Robot.unpack_command whole_floats (Operator.pack_command whole_floats drive ++ 1 ∷ [])
    ≡ some (arriving whole_floats drive)
unpack-pack_command_example =
    unpack-pack_command whole_floats drive (1 ∷ []) refl refl (omega arith)

abbrev standing : Robot.TelemetryData whole_floats
standing = record {
  battery = 87;
  roll = (pos 3, refl);
  pitch = (negsuc 3, refl);
  yaw = (pos 90, refl);
  motors = (pos 15, refl) ∷ (negsuc 20, refl) ∷ [];
}

unpack-pack_telemetry_example :
    Operator.unpack_telemetry whole_floats (Robot.pack_telemetry whole_floats standing)
    ≡ some (reported whole_floats standing)
unpack-pack_telemetry_example = unpack-pack_telemetry whole_floats standing
