-- ===== src/Sensor/Points.antt =====
-- crates/roboprotocol-core/src/sensor.rs: point sets as elements of quantized fields.
pub mod Quantized
use robotele.Prelude.{
  ℕ, ◌+◌, ◌-◌, Bool, true, false, Option, none, some, List, [], ◌∷◌, ◌++◌, map, if◌then◌else◌,
  get_or, suc,
}
use robotele.Prelude.Bytes.{to_be_bytes, from_be_bytes, slice}
use robotele.Bulk.Grid.{ℤ}
use robotele.Sensor.Interleave.{chunks_exact}
use robotele.Sensor.Float.{Float, to_u16, as_i16, is_i16}

abbrev pub size_of : Bool → ℕ
size_of true = 1
size_of false = 0

abbrev pub size_of_scale {ℓ} : {A : Type ℓ} → Option A → ℕ
size_of_scale none = 0
size_of_scale (some s) = 2

module _ (float : Float) where
  open float use {F, zero_float, div, mul, round, to_int, of_int}

  abbrev pub in_range : Option ℤ → Option ℤ
  in_range none = none
  in_range (some q) = if is_i16 q then some q else none

  unfoldable pub quantize_i16 : F → F → Option ℤ
  quantize_i16 value scale = in_range (to_int (round (div value scale)))

  pub record PointFormat : Type 0 where
    pub scale_m : F
    pub intensity : Bool
    pub doppler_scale_mps : Option F
    pub snr : Bool

  pub record Point : Type 0 where
    pub x : F
    pub y : F
    pub z : F
    pub intensity : ℕ  -- u8
    pub doppler_mps : F
    pub snr : ℕ  -- u8

  unfoldable pub element_size : PointFormat → ℕ
  element_size f = 6 + size_of f.intensity + size_of_scale f.doppler_scale_mps + size_of f.snr

  -- The quantized radial velocity: none if it is out of range, some none if it is not carried.
  abbrev pub quantize_doppler : Option F → F → Option (Option ℤ)
  quantize_doppler none v = some none
  quantize_doppler (some scale) v = elim (quantize_i16 v scale) [
    | none ↦ none
    | some d ↦ some (some d)
  ]

  abbrev pub optional_byte : Bool → ℕ → List ℕ
  optional_byte true b = b ∷ []
  optional_byte false b = []

  abbrev pub optional_i16 : Option ℤ → List ℕ
  optional_i16 none = []
  optional_i16 (some d) = to_be_bytes 2 (to_u16 d)

  unfoldable pub point_bytes : PointFormat → Point → (x y z : ℤ) → Option ℤ → List ℕ
  unfolding to_be_bytes to_u16
  point_bytes f p x y z doppler =
      to_be_bytes 2 (to_u16 x)
      ++ (to_be_bytes 2 (to_u16 y)
          ++ (to_be_bytes 2 (to_u16 z)
              ++ (optional_byte f.intensity p.intensity
                  ++ (optional_i16 doppler ++ optional_byte f.snr p.snr))))

  -- The `let … else`: all four are there, or the point is dropped.
  abbrev pub all_there :
      PointFormat → Point → Option ℤ → Option ℤ → Option ℤ → Option (Option ℤ) → Option (List ℕ)
  all_there f p (some x) (some y) (some z) (some d) = some (point_bytes f p x y z d)
  all_there f p (some x) (some y) (some z) none = none
  all_there f p (some x) (some y) none d = none
  all_there f p (some x) none z d = none
  all_there f p none y z d = none

  unfoldable pub encode_point : PointFormat → Point → Option (List ℕ)
  unfolding quantize_i16 point_bytes
  encode_point f p =
      all_there f p (quantize_i16 p.x f.scale_m) (quantize_i16 p.y f.scale_m)
        (quantize_i16 p.z f.scale_m) (quantize_doppler f.doppler_scale_mps p.doppler_mps)

  abbrev pub count_point : Option (List ℕ) → List ℕ × ℕ → List ℕ × ℕ
  count_point none (out, dropped) = (out, dropped + 1)
  count_point (some e) (out, dropped) = (e ++ out, dropped)

  unfoldable pub encode : PointFormat → List Point → List ℕ × ℕ
  unfolding encode_point
  encode f [] = ([], 0)
  encode f (p ∷ points) = count_point (encode_point f p) (encode f points)

  unfoldable pub i16_at : List ℕ → ℕ → F
  i16_at e o = of_int (as_i16 (from_be_bytes (slice o (o + 2) e)))

  abbrev pub decode_doppler : Option F → List ℕ → ℕ → F
  decode_doppler none e o = zero_float
  decode_doppler (some scale) e o = mul (i16_at e o) scale

  unfoldable pub decode_point : PointFormat → List ℕ → Point
  unfolding i16_at
  decode_point f e = record {
    x = mul (i16_at e 0) f.scale_m;
    y = mul (i16_at e 2) f.scale_m;
    z = mul (i16_at e 4) f.scale_m;
    intensity = if f.intensity then get_or e 6 0 else 0;
    doppler_mps = decode_doppler f.doppler_scale_mps e (6 + size_of f.intensity);
    snr =
        if f.snr
        then get_or e (6 + size_of f.intensity + size_of_scale f.doppler_scale_mps) 0
        else 0;
  }

  unfoldable pub decode : PointFormat → List ℕ → List Point
  unfolding decode_point element_size
  decode f bytes = map (decode_point f) (chunks_exact (element_size f) bytes)
