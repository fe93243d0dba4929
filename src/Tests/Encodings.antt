-- ===== src/Tests/Encodings.antt =====
-- The theorems on sensor encodings at concrete inputs: floats are whole numbers, and scales are one.
use robotele.Prelude.{ℕ, ◌≡◌, refl, Bool, true, false, some, List, [], ◌∷◌, ltb}
use robotele.Prelude.Result.{ok}
use robotele.Bulk.Grid.{ℤ, pos, negsuc}
use robotele.Video.Chunk.{div_ceil}
use robotele.Sensor.Float.{Float}
use robotele.Sensor.Slice.{default_slice_payload, slice_count}
use robotele.Sensor.Interleave.{interleave, chunks_exact}
use robotele.Sensor.Points
use robotele.Sensor.Points.{PointFormat, Point}
use robotele.Sensor.Points.Quantized.{arrivals, decode-encode_points}
use robotele.Sensor.Depth
use robotele.Sensor.Depth.{DepthFormat}
use robotele.Sensor.Descriptor.{SensorDescriptor, depth, validate, element_size}
use robotele.Sensor.Descriptor.Sliceable.{validate-sliceable}

abbrev positive : ℤ → Bool
positive (pos n) = ltb 0 n
positive (negsuc n) = false

abbrev whole_numbers : Float
whole_numbers = record {
  F = ℤ;
  zero_float = pos 0;
  div = λ a b. a;
  mul = λ a b. a;
  round = λ a. a;
  to_int = some;
  of_int = λ q. q;
  is_positive = positive;
}

abbrev radar_format : PointFormat whole_numbers
radar_format = record {
  scale_m = pos 1;
  intensity = false;
  doppler_scale_mps = some (pos 1);
  snr = true;
}

abbrev point_at : ℤ → Point whole_numbers
point_at x = record {
  x = x;
  y = negsuc 4;
  z = pos 7;
  intensity = 9;
  doppler_mps = negsuc 0;
  snr = 20;
}

-- The second point is out of range.
abbrev two_points : List (Point whole_numbers)
two_points = point_at (pos 300) ∷ point_at (pos 40000) ∷ []

decode-encode_points_example :
    (Points.decode whole_numbers radar_format
        (Points.encode whole_numbers radar_format two_points).0
      ≡ (arrivals whole_numbers radar_format two_points).0)
    × ((Points.encode whole_numbers radar_format two_points).1
        ≡ (arrivals whole_numbers radar_format two_points).1)
decode-encode_points_example = decode-encode_points whole_numbers radar_format two_points

one_dropped : (arrivals whole_numbers radar_format two_points).1 ≡ 1
unfolding arrivals Points.quantize_i16
one_dropped = refl

-- A row of three pixels, in segments of two.
abbrev small_depth : DepthFormat
small_depth = record { width = 3; height = 1; segment_width = 2 }

abbrev depth_camera : SensorDescriptor whole_numbers
depth_camera = record {
  sensor_id = 1;
  encoding = depth small_depth (record { fx = pos 1; fy = pos 1; cx = pos 0; cy = pos 0 });
  max_hz = 10;
  max_bitrate_kbps = 100;
  mount_position_m = (pos 0, pos 0, pos 0);
  mount_orientation_xyzw = (pos 0, pos 0, pos 0, pos 1);
}

depth_camera_passes : validate whole_numbers depth_camera ≡ ok tt
unfolding validate Depth.element_size Depth.element_count slice_count div_ceil
depth_camera_passes = refl

abbrev row_of_three : List ℕ
row_of_three = 0 ∷ 5 ∷ 1 ∷ 0 ∷ 0 ∷ 7 ∷ 0 ∷ 0 ∷ []

row_is_encoded : Depth.encode small_depth (5 ∷ 256 ∷ 7 ∷ []) ≡ Depth.bytes_of row_of_three
unfolding Depth.encode chunks_exact div_ceil
row_is_encoded = refl

validate-sliceable_example :
    (payloads : List (List ℕ)) × (interleave row_of_three
        (element_size whole_numbers depth_camera.encoding)
        default_slice_payload
      ≡ ok payloads)
validate-sliceable_example =
    validate-sliceable whole_numbers depth_camera row_of_three depth_camera_passes
      (5 ∷ 256 ∷ 7 ∷ [], row_is_encoded)
