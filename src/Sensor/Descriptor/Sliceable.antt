-- ===== src/Sensor/Descriptor/Sliceable.antt =====
-- crates/roboprotocol-core/src/sensor.rs: a sensor whose descriptor passes the check can send its
-- frames.
use native.Mathlib.Nat.{mul-div_cancel, mul-mod_left}
use robotele.Prelude.{
  ℕ, ◌*◌, ◌/◌, ◌%◌, ◌≡◌, refl, ap, ◌∙◌, Option, none, some, List, arith, ◌==◌, Bool-cases, inl, inr,
  length,
}
use robotele.Prelude.Result.{Result, ok, err}
use robotele.Sensor.Slice.{SliceError, slice_count, default_slice_payload}
use robotele.Sensor.Interleave.{interleave}
use robotele.Sensor.Interleave.Accepted.{
  Fits, interleave-Fits, slice_count_answer, div_ceil-le, slices_per,
}
use robotele.Sensor.Float.{Float}
use robotele.Sensor.RangeImage
use robotele.Sensor.RangeImage.{RangeImageFormat, length-encode_image}
use robotele.Sensor.Depth
use robotele.Sensor.Depth.{DepthFormat, bytes_of, length-encode_depth}
use robotele.Sensor.Descriptor.{
  DescriptorError, SensorEncoding, points, range_image, depth, SensorDescriptor, validate,
  encoding_error, element_size, element_count, count_or_zero, sliceable, unless,
}

-- Whole elements, as many as the check took them for.
counted-Fits :
    (count size limit n : ℕ) (bytes : List ℕ)
    → slice_count count size limit ≡ ok n
    → length bytes ≡ count * size
    → Fits bytes size limit
counted-Fits count size limit n bytes h len =
    let (pos, per, is_max, bound) = slice_count_answer count size limit n h in
    (
      pos,
      ap (λ k. k % size) len ∙ mul-mod_left count size,
      (slices_per size limit pos).0 per,
      rw (len, mul-div_cancel count pos)
          ((div_ceil-le count (limit / size) 65535 per).0 (omega (arith, is_max))),
    )

sliceable_answer : (r : Result SliceError ℕ) → sliceable r ≡ ok tt → (n : ℕ) × (r ≡ ok n)
sliceable_answer (ok n) h = (n, refl)
sliceable_answer (err e) h = cc

module _ (float : Float) where
  open float use {F}

  unless_answer :
      (o : Option DescriptorError) (r : Result DescriptorError (Unit {0}))
      → unless float o r ≡ ok tt
      → r ≡ ok tt
  unless_answer none r h = h
  unless_answer (some e) r h = cc

  -- What a descriptor that passes says of the slices.
  validate_answer :
      (d : SensorDescriptor float)
      → validate float d ≡ ok tt
      → (n : ℕ) × (slice_count
            (count_or_zero (element_count float d.encoding))
            (element_size float d.encoding)
            default_slice_payload
          ≡ ok n)
  unfolding validate
  validate_answer d h = elim (Bool-cases (d.max_hz == 0)) [
    | inl e ↦ cc (rw e at h)
    | inr e ↦
        sliceable_answer
          (slice_count (count_or_zero (element_count float d.encoding))
            (element_size float d.encoding) default_slice_payload)
          (unless_answer (encoding_error float d.encoding)
            (sliceable (
              slice_count (count_or_zero (element_count float d.encoding))
                (element_size float d.encoding) default_slice_payload))
            (rw e at h))
  ]

  -- A range image or a depth map that the encoding's format encodes to the bytes.
  abbrev pub Encodes : SensorEncoding float → List ℕ → Type 0
  Encodes (points f) bytes = ⊥
  Encodes (range_image f elevations) bytes =
      (ranges : List F) × (intensity : Option (List ℕ)) × (RangeImage.encode float f ranges
          intensity
        ≡ some bytes)
  Encodes (depth f intrinsics) bytes =
      (depth_mm : List ℕ) × (Depth.encode f depth_mm ≡ bytes_of bytes)

  length-Encodes :
      (e : SensorEncoding float) (bytes : List ℕ)
      → Encodes e bytes
      → length bytes ≡ count_or_zero (element_count float e) * element_size float e
  unfolding element_count element_size
  length-Encodes (points f) bytes h = elim h [ ]
  length-Encodes (range_image f elevations) bytes (ranges, intensity, h) =
      length-encode_image float f ranges intensity bytes h
  length-Encodes (depth f intrinsics) bytes (depth_mm, h) = length-encode_depth f depth_mm bytes h

  -- Where a sensor's descriptor passes the check, every range image and every depth map that its
  -- format encodes can be cut into slices of the default size.
  pub validate-sliceable :
      (d : SensorDescriptor float) (bytes : List ℕ)
      → validate float d ≡ ok tt
      → Encodes d.encoding bytes
      → (payloads : List (List ℕ)) × (interleave bytes
            (element_size float d.encoding)
            default_slice_payload
          ≡ ok payloads)
  validate-sliceable d bytes passed encoded =
      let (n, h) = validate_answer d passed in
      (interleave-Fits bytes (element_size float d.encoding) default_slice_payload).1 (
        counted-Fits (count_or_zero (element_count float d.encoding))
          (element_size float d.encoding) default_slice_payload n bytes h
          (length-Encodes d.encoding bytes encoded))
