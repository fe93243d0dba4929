-- ===== src/Sensor/RangeImage.antt =====
-- crates/roboprotocol-core/src/sensor.rs: organized lidar, one column of beams to an element.
use mathlib.Core.List.{append_assoc, append-nil}
use robotele.Prelude.{
  ℕ, zero, suc, ◌+◌, ◌*◌, ◌≡◌, refl, sym, ap, ◌∙◌, Bool-cases, inl, inr, Bool, true, false, not,
  ◌&&◌, ◌||◌, Option, none, some, List, [], ◌∷◌, ◌++◌, arith, leb, ◌==◌, if◌then◌else◌, length,
  get_or, take, max, length-append,
}
use robotele.Prelude.Bytes.{to_be_bytes, from_be_bytes, slice}
use robotele.Prelude.Positions.{replicate, set}
use robotele.Bulk.Grid.{ℤ, pos, negsuc}
use robotele.Sensor.Interleave.{Deinterleaved, chunks_exact}
use robotele.Sensor.Float.{Float}

abbrev pub length_is : Option (List ℕ) → ℕ → Bool
length_is none n = false
length_is (some xs) n = length xs == n

or_right : (a b : Bool) → (a || b) ≡ false → b ≡ false
or_right true b h = cc
or_right false b h = h

module _ (float : Float) where
  open float use {F, zero_float, div, mul, round, to_int, of_int}

  pub record RangeImageFormat : Type 0 where
    pub beams : ℕ  -- u16
    pub columns : ℕ  -- u16
    pub range_scale_m : F
    pub intensity : Bool

  pub record RangeImage : Type 0 where
    pub beams : ℕ
    pub columns : ℕ
    pub ranges_m : List F
    pub intensity : List ℕ
    pub columns_present : List Bool

  unfoldable pub element_size : RangeImageFormat → ℕ
  element_size f = f.beams * (if f.intensity then 3 else 2)

  unfoldable pub element_count : RangeImageFormat → ℕ
  element_count f = f.columns

  unfoldable pub image_len : RangeImageFormat → ℕ
  image_len f = f.beams * f.columns

  -- `q.is_finite() && q > 0.0 && q <= u16::MAX as f32`
  abbrev pub as_range : Option ℤ → ℕ
  as_range none = 0
  as_range (some (negsuc n)) = 0
  as_range (some (pos n)) = if leb n 65535 then n else 0

  unfoldable pub quantize_range : RangeImageFormat → F → ℕ
  quantize_range f r = as_range (to_int (round (div r f.range_scale_m)))

  -- The ranges of column `c`, from beam `b` on, for the `k` beams that are left.
  unfoldable pub column_ranges : RangeImageFormat → List F → (c b k : ℕ) → List ℕ
  unfolding quantize_range to_be_bytes
  column_ranges f ranges c b zero = []
  column_ranges f ranges c b (suc k) =
      to_be_bytes 2 (quantize_range f (get_or ranges (b * f.columns + c) zero_float))
      ++ column_ranges f ranges c (b + 1) k

  unfoldable pub column_intensity : RangeImageFormat → List ℕ → (c b k : ℕ) → List ℕ
  column_intensity f intensity c b zero = []
  column_intensity f intensity c b (suc k) =
      get_or intensity (b * f.columns + c) 0 ∷ column_intensity f intensity c (b + 1) k

  abbrev pub carried_intensity : RangeImageFormat → Option (List ℕ) → ℕ → List ℕ
  carried_intensity f none c = []
  carried_intensity f (some intensity) c =
      if f.intensity then column_intensity f intensity c 0 f.beams else []

  -- The columns from `c` on, for the `k` that are left.
  unfoldable pub columns_bytes : RangeImageFormat → List F → Option (List ℕ) → (c k : ℕ) → List ℕ
  unfolding column_ranges column_intensity
  columns_bytes f ranges intensity c zero = []
  columns_bytes f ranges intensity c (suc k) =
      column_ranges f ranges c 0 f.beams
      ++ (carried_intensity f intensity c ++ columns_bytes f ranges intensity (c + 1) k)

  unfoldable pub encode : RangeImageFormat → List F → Option (List ℕ) → Option (List ℕ)
  unfolding columns_bytes image_len
  encode f ranges intensity =
      if not (length ranges == image_len f)
        || (f.intensity && not (length_is intensity (image_len f)))
      then none
      else some (columns_bytes f ranges intensity 0 f.columns)

  -- The beams of column `c` from `b` on, out of its element.
  unfoldable pub read_ranges : RangeImageFormat → List ℕ → (c b k : ℕ) → List F → List F
  unfolding set from_be_bytes
  read_ranges f e c b zero ranges = ranges
  read_ranges f e c b (suc k) ranges = read_ranges f e c (b + 1) k (
      set ranges (b * f.columns + c)
        (mul (of_int (pos (from_be_bytes (slice (2 * b) (2 * b + 2) e)))) f.range_scale_m))

  unfoldable pub read_intensity : RangeImageFormat → List ℕ → (c b k : ℕ) → List ℕ → List ℕ
  unfolding set
  read_intensity f e c b zero intensity = intensity
  read_intensity f e c b (suc k) intensity =
      read_intensity f e c (b + 1) k
        (set intensity (b * f.columns + c) (get_or e (2 * f.beams + b) 0))

  unfoldable pub read_columns :
      RangeImageFormat → ℕ → List (List ℕ) → List F × List ℕ → List F × List ℕ
  unfolding read_ranges read_intensity
  read_columns f c [] image = image
  read_columns f c (e ∷ es) (ranges, intensity) = read_columns f (c + 1) es (
    read_ranges f e c 0 f.beams ranges,
    if f.intensity then read_intensity f e c 0 f.beams intensity else intensity,
  )

  unfoldable pub decode : RangeImageFormat → Deinterleaved → RangeImage
  unfolding read_columns replicate element_size image_len
  decode f frame =
      let (ranges, intensity) =
        read_columns f 0 (take f.columns (chunks_exact (max (element_size f) 1) frame.bytes))
          (replicate (image_len f) zero_float, replicate (image_len f) 0) in
      record {
        beams = f.beams;
        columns = f.columns;
        ranges_m = ranges;
        intensity = intensity;
        columns_present = frame.present;
      }

  length-column_ranges :
      (f : RangeImageFormat) (ranges : List F) (c b k : ℕ)
      → length (column_ranges f ranges c b k) ≡ 2 * k
  unfolding column_ranges
  length-column_ranges f ranges c b zero = refl
  length-column_ranges f ranges c b (suc k) =
      omega (arith, length-column_ranges f ranges c (b + 1) k)

  length-column_intensity :
      (f : RangeImageFormat) (intensity : List ℕ) (c b k : ℕ)
      → length (column_intensity f intensity c b k) ≡ k
  unfolding column_intensity
  length-column_intensity f intensity c b zero = refl
  length-column_intensity f intensity c b (suc k) =
      ap suc (length-column_intensity f intensity c (b + 1) k)

  length-column :
      (f : RangeImageFormat) (ranges : List F) (intensity : Option (List ℕ)) (c : ℕ)
      → (f.intensity && not (length_is intensity (image_len f))) ≡ false
      → length (column_ranges f ranges c 0 f.beams ++ carried_intensity f intensity c)
        ≡ element_size f
  unfolding element_size column_intensity column_ranges
  length-column f ranges none c h = ground (
    arith,
    h,
    append-nil (column_ranges f ranges c 0 f.beams),
    length-column_ranges f ranges c 0 f.beams,
  )
  length-column f ranges (some xs) c h = elim (Bool-cases f.intensity) [
    | inl e ↦ rw e (
        length-append (column_ranges f ranges c 0 f.beams) (column_intensity f xs c 0 f.beams)
        ∙ omega (
          arith,
          length-column_ranges f ranges c 0 f.beams,
          length-column_intensity f xs c 0 f.beams,
        ))
    | inr e ↦ rw e (
        length-append (column_ranges f ranges c 0 f.beams) []
        ∙ omega (arith, length-column_ranges f ranges c 0 f.beams))
  ]

  length-columns :
      (f : RangeImageFormat) (ranges : List F) (intensity : Option (List ℕ)) (c k : ℕ)
      → (f.intensity && not (length_is intensity (image_len f))) ≡ false
      → length (columns_bytes f ranges intensity c k) ≡ k * element_size f
  unfolding columns_bytes
  length-columns f ranges intensity c zero h = omega arith
  length-columns f ranges intensity c (suc k) h =
      let column : List ℕ = column_ranges f ranges c 0 f.beams ++ carried_intensity f intensity c in
      ap length (
        sym (
          append_assoc (column_ranges f ranges c 0 f.beams) (carried_intensity f intensity c)
            (columns_bytes f ranges intensity (c + 1) k)))
      ∙ length-append column (columns_bytes f ranges intensity (c + 1) k)
      ∙ grind (
        arith,
        length-column f ranges intensity c h,
        length-columns f ranges intensity (c + 1) k h,
      )

  -- An encoded range image is its columns' elements.
  pub length-encode_image :
      (f : RangeImageFormat) (ranges : List F) (intensity : Option (List ℕ)) (bytes : List ℕ)
      → encode f ranges intensity ≡ some bytes
      → length bytes ≡ element_count f * element_size f
  unfolding encode element_count
  length-encode_image f ranges intensity bytes h =
      elim (Bool-cases (
        not (length ranges == image_len f)
        || (f.intensity && not (length_is intensity (image_len f))))) [
          | inl e ↦ cc (rw e at h)
          | inr e ↦
              let same : bytes ≡ columns_bytes f ranges intensity 0 f.columns = cc (rw e at h) in
              rw same (length-columns f ranges intensity 0 f.columns (or_right _ _ e))
        ]
