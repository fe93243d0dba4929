-- ===== src/Sensor/Points/Quantized.antt =====
-- crates/roboprotocol-core/src/sensor.rs: what a point set is decoded to.
use robotele.Prelude.{
  ℕ, ◌+◌, ◌<◌, ◌≡◌, ltb, refl, sym, ap, ◌∙◌, true, Option, none, some, List, [], ◌∷◌, map, arith,
  Bool-cases, inl, inr, if◌then◌else◌, length,
}
use robotele.Prelude.Bytes.{to_be_bytes, from_be_bytes, from_be_bytes-to_be_bytes}
use robotele.Bulk.Grid.{ℤ, pos, negsuc}
use robotele.Sensor.Interleave.Elements.{chunks_exact-append, chunks_exact-nil}
use robotele.Sensor.Float.{Float, to_u16, as_i16, is_i16, as_i16-to_u16, to_u16-lt}
use robotele.Sensor.Points.{
  PointFormat, Point, in_range, element_size, quantize_i16, quantize_doppler, point_bytes,
  all_there, encode_point, count_point, encode, decode_point, decode, i16_at,
}

module _ (float : Float) where
  open float use {F, zero_float, div, mul, round, to_int, of_int}

  -- The value that stands for `v` on the wire.
  abbrev pub on_wire : ℤ → F → F
  on_wire q scale = mul (of_int q) scale

  abbrev wire_doppler : Option F → Option ℤ → F
  wire_doppler (some scale) (some d) = on_wire d scale
  wire_doppler (some scale) none = zero_float
  wire_doppler none d = zero_float

  -- A point as its format carries it: the coordinates in units of the scale, the fields that are
  -- not carried at zero.
  abbrev pub carried : PointFormat float → Point float → (x y z : ℤ) → Option ℤ → Point float
  carried f p x y z d = record {
    x = on_wire x f.scale_m;
    y = on_wire y f.scale_m;
    z = on_wire z f.scale_m;
    intensity = if f.intensity then p.intensity else 0;
    doppler_mps = wire_doppler f.doppler_scale_mps d;
    snr = if f.snr then p.snr else 0;
  }

  i16_read : (q : ℤ) → is_i16 q ≡ true → as_i16 (from_be_bytes (to_be_bytes 2 (to_u16 q))) ≡ q
  i16_read q h =
      ap as_i16 (from_be_bytes-to_be_bytes 2 (to_u16 q) (to_u16-lt q h)) ∙ as_i16-to_u16 q h

  decode_point_lem :
      (f : PointFormat float) (p : Point float) (x y z d : ℤ)
      → is_i16 x ≡ true
      → is_i16 y ≡ true
      → is_i16 z ≡ true
      → is_i16 d ≡ true
      → (s : F) → f.doppler_scale_mps ≡ some s
      → decode_point float f (point_bytes float f p x y z (some d)) ≡ carried f p x y z (some d)
  unfolding decode_point point_bytes i16_at
  decode_point_lem f p x y z d hx hy hz hd s e =
      ground (arith, i16_read x hx, i16_read y hy, i16_read z hz, i16_read d hd)

  decode_point_plain :
      (f : PointFormat float) (p : Point float) (x y z : ℤ)
      → is_i16 x ≡ true
      → is_i16 y ≡ true
      → is_i16 z ≡ true
      → f.doppler_scale_mps ≡ none
      → decode_point float f (point_bytes float f p x y z none) ≡ carried f p x y z none
  unfolding decode_point point_bytes i16_at
  decode_point_plain f p x y z hx hy hz e =
      ground (arith, i16_read x hx, i16_read y hy, i16_read z hz)

  abbrev InRange : Option ℤ → Type 0
  InRange none = Unit
  InRange (some q) = is_i16 q ≡ true

  quantize_i16-InRange : (v scale : F) → InRange (quantize_i16 float v scale)
  unfolding quantize_i16
  quantize_i16-InRange v scale = checked (to_int (round (div v scale)))
    where
      checked : (o : Option ℤ) → InRange (in_range float o)
      checked none = tt
      checked (some q) = elim (Bool-cases (is_i16 q)) [ inl e ↦ rw e e | inr e ↦ rw e tt ]

  -- What a quantized velocity is, for the scale of the format.
  abbrev Fits : Option F → Option (Option ℤ) → Type 0
  Fits scale none = Unit
  Fits scale (some none) = scale ≡ none
  Fits scale (some (some d)) = (is_i16 d ≡ true) × (s : F) × (scale ≡ some s)

  quantize_doppler-Fits : (scale : Option F) (v : F) → Fits scale (quantize_doppler float scale v)
  quantize_doppler-Fits none v = refl
  quantize_doppler-Fits (some s) v = checked (quantize_i16 float v s) (quantize_i16-InRange v s)
    where
      checked :
          (o : Option ℤ)
          → InRange o
          → Fits (some s) (elim o [ none ↦ none | some d ↦ some (some d) ])
      checked none h = tt
      checked (some d) h = (h, s, refl)

  abbrev pub all_carried :
      PointFormat float
      → Point float
      → Option ℤ
      → Option ℤ
      → Option ℤ
      → Option (Option ℤ)
      → Option (Point float)
  all_carried f p (some x) (some y) (some z) (some d) = some (carried f p x y z d)
  all_carried f p (some x) (some y) (some z) none = none
  all_carried f p (some x) (some y) none d = none
  all_carried f p (some x) none z d = none
  all_carried f p none y z d = none

  -- From -32768 to 32767.
  abbrev pub fits_16_bits : ℤ → Option ℤ
  fits_16_bits (pos n) = if ltb n 32768 then some (pos n) else none
  fits_16_bits (negsuc n) = if ltb n 32768 then some (negsuc n) else none

  -- The whole number of units nearest to a value (as `round` has it), if it fits into 16 bits.
  abbrev pub units : F → F → Option ℤ
  units value unit = elim (to_int (round (div value unit))) [
    | none ↦ none
    | some q ↦ fits_16_bits q
  ]

  -- The same for a field that may not be carried: none if it does not fit.
  abbrev pub units_if_carried : Option F → F → Option (Option ℤ)
  units_if_carried none value = some none
  units_if_carried (some unit) value = elim (units value unit) [
    | none ↦ none
    | some q ↦ some (some q)
  ]

  -- A point as it arrives; none where a carried field is out of its range.
  unfoldable pub arriving : PointFormat float → Point float → Option (Point float)
  arriving f p =
      all_carried f p (units p.x f.scale_m) (units p.y f.scale_m) (units p.z f.scale_m)
        (units_if_carried f.doppler_scale_mps p.doppler_mps)

  quantize_i16-units : (v scale : F) → quantize_i16 float v scale ≡ units v scale
  unfolding quantize_i16
  quantize_i16-units v scale = same (to_int (round (div v scale)))
    where
      same : (o : Option ℤ) → in_range float o ≡ (elim o [ none ↦ none | some q ↦ fits_16_bits q ])
      same none = refl
      same (some (pos n)) = ground arith
      same (some (negsuc n)) = ground arith

  quantize_doppler-units :
      (scale : Option F) (v : F) → quantize_doppler float scale v ≡ units_if_carried scale v
  quantize_doppler-units none v = refl
  quantize_doppler-units (some s) v =
      ap
        (λ (o : Option ℤ). elim o as (λ _. Option (Option ℤ)) [
          | none ↦ none
          | some d ↦ some (some d)
        ])
        (quantize_i16-units v s)

  abbrev Relates : PointFormat float → Option (List ℕ) → Option (Point float) → Type 0
  Relates f none q = q ≡ none
  Relates f (some e) q = (q ≡ some (decode_point float f e)) × (length e ≡ element_size float f)

  length-point_bytes :
      (f : PointFormat float) (p : Point float) (x y z : ℤ) (d : Option ℤ)
      → Fits f.doppler_scale_mps (some d)
      → length (point_bytes float f p x y z d) ≡ element_size float f
  unfolding point_bytes element_size
  length-point_bytes f p x y z none h = ground (arith, h)
  length-point_bytes f p x y z (some d) (_, s, h) = ground (arith, h)

  all_there-Relates :
      (f : PointFormat float) (p : Point float) (x y z : Option ℤ) (d : Option (Option ℤ))
      → InRange x
      → InRange y
      → InRange z
      → Fits f.doppler_scale_mps d
      → Relates f (all_there float f p x y z d) (all_carried f p x y z d)
  all_there-Relates f p none y z d hx hy hz h = refl
  all_there-Relates f p (some x) none z d hx hy hz h = refl
  all_there-Relates f p (some x) (some y) none d hx hy hz h = refl
  all_there-Relates f p (some x) (some y) (some z) none hx hy hz h = refl
  all_there-Relates f p (some x) (some y) (some z) (some none) hx hy hz h =
      (ap some (sym (decode_point_plain f p x y z hx hy hz h)), length-point_bytes f p x y z none h)
  all_there-Relates f p (some x) (some y) (some z) (some (some d)) hx hy hz (hd, s, h) = (
    ap some (sym (decode_point_lem f p x y z d hx hy hz hd s h)),
    length-point_bytes f p x y z (some d) (hd, s, h),
  )

  encode_point-Relates :
      (f : PointFormat float) (p : Point float) → Relates f (encode_point float f p) (arriving f p)
  unfolding encode_point arriving
  encode_point-Relates f p =
      rw
        (
          ← quantize_i16-units p.x f.scale_m,
          ← quantize_i16-units p.y f.scale_m,
          ← quantize_i16-units p.z f.scale_m,
          ← quantize_doppler-units f.doppler_scale_mps p.doppler_mps,
        )
        (all_there-Relates f p (quantize_i16 float p.x f.scale_m) (quantize_i16 float p.y f.scale_m)
          (quantize_i16 float p.z f.scale_m)
          (quantize_doppler float f.doppler_scale_mps p.doppler_mps)
          (quantize_i16-InRange p.x f.scale_m) (quantize_i16-InRange p.y f.scale_m)
          (quantize_i16-InRange p.z f.scale_m)
          (quantize_doppler-Fits f.doppler_scale_mps p.doppler_mps))

  abbrev pub and_kept : Option (Point float) → List (Point float) × ℕ → List (Point float) × ℕ
  and_kept none (kept, dropped) = (kept, dropped + 1)
  and_kept (some p) (kept, dropped) = (p ∷ kept, dropped)

  -- The points that arrive, and how many do not.
  unfoldable pub arrivals : PointFormat float → List (Point float) → List (Point float) × ℕ
  unfolding arriving
  arrivals f [] = ([], 0)
  arrivals f (p ∷ points) = and_kept (arriving f p) (arrivals f points)

  size_pos : (f : PointFormat float) → 0 < element_size float f
  unfolding element_size
  size_pos f = omega arith

  one_more :
      (f : PointFormat float) (sent : List ℕ × ℕ) (got : List (Point float) × ℕ)
      (e : Option (List ℕ)) (q : Option (Point float))
      → Relates f e q
      → (decode float f sent.0 ≡ got.0) × (sent.1 ≡ got.1)
      → (decode float f (count_point float e sent).0 ≡ (and_kept q got).0)
        × ((count_point float e sent).1 ≡ (and_kept q got).1)
  unfolding decode
  one_more f sent got none q h ih = rw h (ih.0, ap (λ n. n + 1) ih.1)
  one_more f sent got (some e) q (h, len) ih = rw h (
    ap (map (decode_point float f))
          (chunks_exact-append (element_size float f) e sent.0 (size_pos f) len)
        ∙ ap (λ ps. decode_point float f e ∷ ps) ih.0,
    ih.1,
  )

  -- A point set is decoded to the points that arrive, in their order: each coordinate, and the radial
  -- velocity if it is carried, as the nearest whole number of the format's units (the quotient
  -- rounded), times the unit; the fields that are not carried at zero; the bytes as they are. A point
  -- is left out, and counted as dropped, exactly if one of these numbers is none of 16 bits with sign.
  pub decode-encode_points :
      (f : PointFormat float) (points : List (Point float))
      → (decode float f (encode float f points).0 ≡ (arrivals f points).0)
        × ((encode float f points).1 ≡ (arrivals f points).1)
  unfolding decode encode arrivals
  decode-encode_points f [] =
      (ap (map (decode_point float f)) (chunks_exact-nil (element_size float f)), refl)
  decode-encode_points f (p ∷ points) =
      one_more f (encode float f points) (arrivals f points) (encode_point float f p) (arriving f p)
        (encode_point-Relates f p) (decode-encode_points f points)
