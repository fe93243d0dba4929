-- ===== src/Sensor/Float.antt =====
-- The 32-bit floats of the sensor encodings (`f32`), as an interface: what the code uses of them.
use robotele.Prelude.{ℕ, ◌<◌, ◌-◌, ◌≡◌, Bool, true, Option, arith, ltb, leb, if◌then◌else◌}
use robotele.Bulk.Grid.{ℤ, pos, negsuc}

pub record Float : Type 1 where
  pub F : Type 0
  pub zero_float : F
  pub div : F → F → F
  pub mul : F → F → F
  pub round : F → F
  -- The whole number that a finite value is; none for an infinity or a NaN.
  pub to_int : F → Option ℤ
  pub of_int : ℤ → F
  -- `v.is_finite() && v > 0.0`
  pub is_positive : F → Bool

-- An i16 in two's complement, and back.
unfoldable pub to_u16 : ℤ → ℕ
to_u16 (pos n) = n
to_u16 (negsuc n) = 65536 - n - 1

unfoldable pub as_i16 : ℕ → ℤ
as_i16 w = if ltb w 32768 then pos w else negsuc (65536 - w - 1)

abbrev pub is_i16 : ℤ → Bool
is_i16 (pos n) = leb n 32767
is_i16 (negsuc n) = leb n 32767

pub as_i16-to_u16 : (q : ℤ) → is_i16 q ≡ true → as_i16 (to_u16 q) ≡ q
unfolding as_i16 to_u16
as_i16-to_u16 (pos n) h = ground arith
as_i16-to_u16 (negsuc n) h = ground arith

pub to_u16-lt : (q : ℤ) → is_i16 q ≡ true → to_u16 q < 65536
unfolding to_u16
to_u16-lt (pos n) h = ground arith
to_u16-lt (negsuc n) h = ground arith
