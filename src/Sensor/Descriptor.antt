-- ===== src/Sensor/Descriptor.antt =====
-- crates/roboprotocol-core/src/sensor.rs: what a session advertises of a sensor, its check, and the
-- decoding of a frame by it.
pub mod Sliceable
use robotele.Prelude.{
  ℕ, ◌*◌, Bool, true, false, not, ◌&&◌, ◌||◌, Option, none, some, List, [], ◌∷◌, ltb, ◌==◌,
  if◌then◌else◌, length, keep,
}
use robotele.Prelude.Result.{Result, ok, err}
use robotele.Sensor.Slice.{SliceError, slice_count, default_slice_payload}
use robotele.Sensor.Interleave.{AssembledFrame, deinterleave, received_elements}
use robotele.Sensor.Float.{Float}
use robotele.Sensor.Points
use robotele.Sensor.Points.{PointFormat, Point}
use robotele.Sensor.RangeImage
use robotele.Sensor.RangeImage.{RangeImageFormat}
use robotele.Sensor.Depth
use robotele.Sensor.Depth.{DepthFormat}

pub data DescriptorError : Type 0 where
  no_rate : DescriptorError
  point_scales : DescriptorError
  range_image_shape : DescriptorError
  beam_elevations : (given beams : ℕ) → DescriptorError
  depth_shape : DescriptorError
  depth_focal_lengths : DescriptorError
  not_sliceable : SliceError → DescriptorError

abbrev pub count_or_zero : Option ℕ → ℕ
count_or_zero none = 0
count_or_zero (some n) = n

-- `map(|_| ()).map_err(…)`
abbrev pub sliceable : Result SliceError ℕ → Result DescriptorError (Unit {0})
sliceable (ok n) = ok tt
sliceable (err e) = err (not_sliceable e)

module _ (float : Float) where
  open float use {F, is_positive}

  pub record DepthIntrinsics : Type 0 where
    pub fx : F
    pub fy : F
    pub cx : F
    pub cy : F

  pub data SensorEncoding : Type 0 where
    points : PointFormat float → SensorEncoding
    range_image : RangeImageFormat float → List F → SensorEncoding
    depth : DepthFormat → DepthIntrinsics → SensorEncoding

  pub data SensorData : Type 0 where
    point_data : List (Point float) → SensorData
    range_image_data : RangeImage.RangeImage float → SensorData
    depth_data : Depth.DepthImage → SensorData

  -- Points, lidar returns, or pixels with depth.
  unfoldable pub sample_count : SensorData → ℕ
  sample_count (point_data ps) = length ps
  sample_count (range_image_data img) = length (keep is_positive img.ranges_m)
  sample_count (depth_data img) = length (keep (λ d. ltb 0 d) img.depth_mm)

  unfoldable pub element_size : SensorEncoding → ℕ
  element_size (points f) = Points.element_size float f
  element_size (range_image f elevations) = RangeImage.element_size float f
  element_size (depth f intrinsics) = Depth.element_size f

  -- The elements of a frame; none for point sets, whose size varies.
  unfoldable pub element_count : SensorEncoding → Option ℕ
  element_count (points f) = none
  element_count (range_image f elevations) = some (RangeImage.element_count float f)
  element_count (depth f intrinsics) = some (Depth.element_count f)

  unfoldable pub decode : SensorEncoding → AssembledFrame → SensorData
  decode (points f) frame =
      point_data (Points.decode float f (received_elements frame (Points.element_size float f)))
  decode (range_image f elevations) frame = range_image_data (
      RangeImage.decode float f
        (deinterleave frame (RangeImage.element_size float f) (RangeImage.element_count float f)))
  decode (depth f intrinsics) frame =
      depth_data
        (Depth.decode f (deinterleave frame (Depth.element_size f) (Depth.element_count f)))

  -- The label is left out.
  pub record SensorDescriptor : Type 0 where
    pub sensor_id : ℕ  -- u8
    pub encoding : SensorEncoding
    pub max_hz : ℕ  -- u8
    pub max_bitrate_kbps : ℕ  -- u32
    pub mount_position_m : F × F × F
    pub mount_orientation_xyzw : F × F × F × F

  abbrev pub scale_is_bad : Option F → Bool
  scale_is_bad none = false
  scale_is_bad (some s) = not (is_positive s)

  -- The `match` on the encoding: none where it passes.
  unfoldable pub encoding_error : SensorEncoding → Option DescriptorError
  encoding_error (points f) =
      if not (is_positive f.scale_m) || scale_is_bad f.doppler_scale_mps
      then some point_scales
      else none
  encoding_error (range_image f elevations) =
      if f.beams == 0 || (f.columns == 0 || not (is_positive f.range_scale_m))
      then some range_image_shape
      else if not (length elevations == f.beams)
      then some (beam_elevations (length elevations) f.beams)
      else none
  encoding_error (depth f intrinsics) =
      if f.width == 0 || (f.height == 0 || (f.segment_width == 0 || ltb f.width f.segment_width))
      then some depth_shape
      else if not (is_positive intrinsics.fx && is_positive intrinsics.fy)
      then some depth_focal_lengths
      else none

  abbrev pub unless :
      Option DescriptorError → Result DescriptorError (Unit {0}) → Result DescriptorError (Unit {0})
  unless none rest = rest
  unless (some e) rest = err e

  unfoldable pub validate : SensorDescriptor → Result DescriptorError (Unit {0})
  unfolding encoding_error element_size element_count
  validate d =
      if d.max_hz == 0
      then err no_rate
      else unless (encoding_error d.encoding) (
          sliceable (
            slice_count (count_or_zero (element_count d.encoding)) (element_size d.encoding)
              default_slice_payload))
