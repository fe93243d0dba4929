-- ===== src/Sensor/Interleave/Accepted.antt =====
-- crates/roboprotocol-core/src/sensor.rs: the frames that can be cut into slices, and the sizes of
-- the slices.
use native.Mathlib.Nat.{le-div_iff_mul-le, div-lt_iff_lt-mul}
use robotele.Prelude.{
  ℕ, ◌+◌, ◌*◌, ◌/◌, ◌%◌, ◌-◌, ◌<◌, ◌≤◌, ◌≡◌, ◌↔◌, refl, List, [], arith, max, ◌==◌, ==_iff,
  Bool-cases, inl, inr, length,
}
use robotele.Prelude.Positions.{replicate}
use robotele.Prelude.Result.{Result, ok, err}
use robotele.Video.Chunk.{div_ceil}
use robotele.Sensor.Slice.{SliceError, slice_count, as_slice_count}
use robotele.Sensor.Interleave.{interleave, deal_over, deal, chunks_exact}

-- What `slice_count` answered, when it answered.
pub slice_count_answer :
    (count size limit n : ℕ)
    → slice_count count size limit ≡ ok n
    → (0 < size) × (0 < limit / size) × (n ≡ max (div_ceil count (limit / size)) 1) × (n ≤ 65535)
unfolding slice_count as_slice_count
slice_count_answer count size limit n h = ground arith

deal_over_answer :
    (size : ℕ) (elements : List ℕ) (r : Result SliceError ℕ) (payloads : List (List ℕ))
    → deal_over size elements r ≡ ok payloads
    → (n : ℕ) × (r ≡ ok n) × (payloads ≡ deal n 0 (chunks_exact size elements) (replicate n []))
unfolding deal_over
deal_over_answer size elements (err e) payloads h = cc
deal_over_answer size elements (ok n) payloads h = (n, refl, cc)

pub interleave_answer :
    (elements : List ℕ) (size limit : ℕ) (payloads : List (List ℕ))
    → interleave elements size limit ≡ ok payloads
    → (n : ℕ) × (slice_count (length elements / size) size limit ≡ ok n)
      × (length elements % size ≡ 0)
      × (payloads ≡ deal n 0 (chunks_exact size elements) (replicate n []))
unfolding interleave
interleave_answer elements size limit payloads h = elim (Bool-cases (size == 0)) [
  | inl e ↦ cc (rw e at h)
  | inr e ↦ elim (Bool-cases (length elements % size == 0)) [
    | inr odd ↦ cc (rw (e, odd) at h)
    | inl whole ↦
        let (n, answer, dealt) =
          deal_over_answer size elements (slice_count (length elements / size) size limit) payloads
            (rw (e, whole) at h) in
        (n, answer, (==_iff _ _).0 whole, dealt)
  ]
]

-- Rounding up stays within a bound exactly when the whole does.
pub div_ceil-le : (c p k : ℕ) → 0 < p → (div_ceil c p ≤ k) ↔ (c ≤ k * p)
unfolding div_ceil
div_ceil-le c p k pos = (
  λ h. grind (arith, (div-lt_iff_lt-mul {x = c + p - 1} {y = k + 1} pos).0 (omega arith)),
  λ h. omega (arith, (div-lt_iff_lt-mul {x = c + p - 1} {y = k + 1} pos).1 (grind arith)),
)

-- A frame of whole elements, each fitting a slice, in at most 65535 slices.
abbrev pub Fits : (elements : List ℕ) (size limit : ℕ) → Type 0
Fits elements size limit =
    (0 < size)
    × (length elements % size ≡ 0)
    × (size ≤ limit)
    × (length elements / size ≤ 65535 * (limit / size))

pub slices_per : (size limit : ℕ) → 0 < size → (1 ≤ limit / size) ↔ (size ≤ limit)
slices_per size limit pos = (
  λ h. omega (arith, (le-div_iff_mul-le {x = 1} {y = limit} pos).0 h),
  λ h. (le-div_iff_mul-le {x = 1} {y = limit} pos).1 (omega (arith, h)),
)

slice_count_given :
    (count size limit : ℕ)
    → 0 < size
    → 0 < limit / size
    → div_ceil count (limit / size) ≤ 65535
    → slice_count count size limit ≡ ok (max (div_ceil count (limit / size)) 1)
unfolding slice_count as_slice_count
slice_count_given count size limit p q h = ground arith

-- A frame is cut into slices exactly when it is of whole elements of a positive size, an element
-- fits a slice, and 65535 slices hold them all; every other frame is refused with an error.
pub interleave-Fits :
    (elements : List ℕ) (size limit : ℕ)
    → ((payloads : List (List ℕ)) × (interleave elements size limit ≡ ok payloads))
      ↔ Fits elements size limit
unfolding interleave deal_over
interleave-Fits elements size limit = (
  λ (payloads, h).
      let (n, answer, whole, _) = interleave_answer elements size limit payloads h in
      let (pos, per, is_max, bound) =
        slice_count_answer (length elements / size) size limit n answer in
      (
        pos,
        whole,
        (slices_per size limit pos).0 per,
        (div_ceil-le (length elements / size) (limit / size) 65535 per).0 (omega (arith, is_max)),
      ),
  λ (pos, whole, fits, bound).
      let per : 0 < limit / size = (slices_per size limit pos).1 fits in
      let n : ℕ = max (div_ceil (length elements / size) (limit / size)) 1 in
      (
        deal n 0 (chunks_exact size elements) (replicate n []),
        rw
            (
              slice_count_given (length elements / size) size limit pos per
                  ((div_ceil-le (length elements / size) (limit / size) 65535 per).1 bound),
              whole,
            )
            (ground (arith, pos)),
      ),
)
