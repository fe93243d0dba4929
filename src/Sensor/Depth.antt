-- ===== src/Sensor/Depth.antt =====
-- crates/roboprotocol-core/src/sensor.rs: depth maps, a run of one row's pixels to an element.
use native.Mathlib.Nat.{mul-div_cancel_left}
use robotele.Prelude.{
  ℕ, zero, suc, ◌+◌, ◌*◌, ◌/◌, ◌%◌, ◌≡◌, refl, ap, ◌∙◌, Bool-cases, inl, inr, not, ◌||◌, List, [],
  ◌∷◌, ◌++◌, arith, ltb, ◌==◌, if◌then◌else◌, length, get_or, take, max, min, length-append,
}
use robotele.Prelude.Bytes.{to_be_bytes, from_be_bytes}
use robotele.Prelude.Positions.{replicate, set}
use robotele.Video.Chunk.{div_ceil}
use robotele.Sensor.Interleave.{Deinterleaved, chunks_exact}
use robotele.Sensor.Interleave.Elements.{length-cut}

pub record DepthFormat : Type 0 where
  pub width : ℕ  -- u16
  pub height : ℕ  -- u16
  pub segment_width : ℕ  -- u16

abbrev pub default_depth_segment_width : ℕ
default_depth_segment_width = 32

pub record DepthImage : Type 0 where
  pub width : ℕ
  pub height : ℕ
  pub depth_mm : List ℕ

unfoldable pub new : (width height : ℕ) → DepthFormat
new width height = record {
  width = width;
  height = height;
  segment_width = min default_depth_segment_width (max width 1);
}

unfoldable pub segments_per_row : DepthFormat → ℕ
unfolding div_ceil
segments_per_row f = div_ceil f.width (max f.segment_width 1)

unfoldable pub element_size : DepthFormat → ℕ
element_size f = f.segment_width * 2

unfoldable pub element_count : DepthFormat → ℕ
unfolding segments_per_row
element_count f = f.height * segments_per_row f

-- The pixels from `x` on, for the `k` that are left of a segment: zeros beyond the row.
unfoldable pub segment_bytes : List ℕ → (x k : ℕ) → List ℕ
unfolding to_be_bytes
segment_bytes row x zero = []
segment_bytes row x (suc k) = to_be_bytes 2 (get_or row x 0) ++ segment_bytes row (x + 1) k

unfoldable pub row_bytes : DepthFormat → List ℕ → (seg k : ℕ) → List ℕ
unfolding segment_bytes
row_bytes f row seg zero = []
row_bytes f row seg (suc k) =
    segment_bytes row (seg * f.segment_width) f.segment_width ++ row_bytes f row (seg + 1) k

unfoldable pub rows_bytes : DepthFormat → List (List ℕ) → List ℕ
unfolding row_bytes segments_per_row
rows_bytes f [] = []
rows_bytes f (row ∷ rows) = row_bytes f row 0 (segments_per_row f) ++ rows_bytes f rows

-- `chunks_exact` of a width of zero is a panic.
pub data Encoded : Type 0 where
  bytes_of : List ℕ → Encoded
  mismatched : Encoded
  panicked : Encoded

unfoldable pub encode : DepthFormat → List ℕ → Encoded
unfolding rows_bytes chunks_exact
encode f depth_mm =
    if not (length depth_mm == f.width * f.height) || f.segment_width == 0
    then mismatched
    else if f.width == 0
    then panicked
    else bytes_of (rows_bytes f (chunks_exact f.width depth_mm))

-- The pixels of a segment, from its `k`-th: those beyond the row are padding.
unfoldable pub read_segment : DepthFormat → (y seg k : ℕ) → List (List ℕ) → List ℕ → List ℕ
unfolding set from_be_bytes
read_segment f y seg k [] depth = depth
read_segment f y seg k (px ∷ pxs) depth =
    let x : ℕ = seg * f.segment_width + k in
    read_segment f y seg (k + 1) pxs
      (if ltb x f.width then set depth (y * f.width + x) (from_be_bytes px) else depth)

unfoldable pub read_segments : DepthFormat → ℕ → List (List ℕ) → List ℕ → List ℕ
unfolding read_segment segments_per_row chunks_exact
read_segments f i [] depth = depth
read_segments f i (e ∷ es) depth =
    read_segments f (i + 1) es
      (read_segment f (i / segments_per_row f) (i % segments_per_row f) 0 (chunks_exact 2 e) depth)

unfoldable pub decode : DepthFormat → Deinterleaved → DepthImage
unfolding read_segments element_size element_count replicate chunks_exact
decode f frame = record {
  width = f.width;
  height = f.height;
  depth_mm =
      read_segments f 0 (take (element_count f) (chunks_exact (max (element_size f) 1) frame.bytes))
        (replicate (f.width * f.height) 0);
}

length-segment_bytes : (row : List ℕ) (x k : ℕ) → length (segment_bytes row x k) ≡ k * 2
unfolding segment_bytes
length-segment_bytes row x zero = refl
length-segment_bytes row x (suc k) = omega (arith, length-segment_bytes row (x + 1) k)

length-row_bytes :
    (f : DepthFormat) (row : List ℕ) (seg k : ℕ)
    → length (row_bytes f row seg k) ≡ k * element_size f
unfolding row_bytes element_size
length-row_bytes f row seg zero = omega arith
length-row_bytes f row seg (suc k) =
    length-append (segment_bytes row (seg * f.segment_width) f.segment_width)
      (row_bytes f row (seg + 1) k)
    ∙ grind (
      arith,
      length-segment_bytes row (seg * f.segment_width) f.segment_width,
      length-row_bytes f row (seg + 1) k,
    )

length-rows_bytes :
    (f : DepthFormat) (rows : List (List ℕ))
    → length (rows_bytes f rows) ≡ length rows * segments_per_row f * element_size f
unfolding rows_bytes
length-rows_bytes f [] = omega arith
length-rows_bytes f (row ∷ rows) =
    length-append (row_bytes f row 0 (segments_per_row f)) (rows_bytes f rows)
    ∙ grind (arith, length-row_bytes f row 0 (segments_per_row f), length-rows_bytes f rows)

-- An encoded depth map is its segments' elements.
pub length-encode_depth :
    (f : DepthFormat) (depth_mm bytes : List ℕ)
    → encode f depth_mm ≡ bytes_of bytes
    → length bytes ≡ element_count f * element_size f
unfolding encode element_count chunks_exact
length-encode_depth f depth_mm bytes h =
    elim (Bool-cases (not (length depth_mm == f.width * f.height) || f.segment_width == 0)) [
      | inl e ↦ cc (rw e at h)
      | inr e ↦ elim (Bool-cases (f.width == 0)) [
        | inl z ↦ cc (rw (e, z) at h)
        | inr z ↦
            let same : bytes ≡ rows_bytes f (chunks_exact f.width depth_mm) = cc (rw (e, z) at h) in
            rw (same, length-rows_bytes f (chunks_exact f.width depth_mm))
              (ap (λ n. n * segments_per_row f * element_size f)
                (length-cut f.width (length depth_mm / f.width) depth_mm
                  ∙ ap (λ n. n / f.width) (ground (arith, e))
                  ∙ mul-div_cancel_left f.height (ground (arith, z))))
      ]
    ]
