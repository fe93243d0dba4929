-- ===== src/Sensor/Interleave.antt =====
-- crates/roboprotocol-core/src/sensor.rs: a frame's elements dealt out over its slices, and a
-- received frame put back in order. A byte is a number.
pub mod Elements
pub mod Dealt
pub mod Placed
pub mod Bytewise
pub mod Accepted
pub mod Restored
use robotele.Prelude.{
  ℕ, zero, suc, ◌+◌, ◌*◌, ◌/◌, ◌%◌, ◌-◌, Bool, true, false, Option, none, some, List, [], ◌∷◌, ◌++◌,
  leb, ◌==◌, if◌then◌else◌, length, take, drop,
}
use robotele.Prelude.Positions.{replicate, set}
use robotele.Prelude.Result.{Result, ok, err}
use robotele.Wire.Datagram.{tag_sensor_slice}
use robotele.Sensor.Slice.{
  SliceHeader, encode, SliceError, zero_element_size, partial_element, slice_count,
}

-- `n` pieces of `size` bytes from the front.
unfoldable pub cut : ℕ → ℕ → List ℕ → List (List ℕ)
cut zero size xs = []
cut (suc n) size xs = take size xs ∷ cut n size (drop size xs)

-- `xs.chunks_exact(size)`: as many whole pieces as there are.
unfoldable pub chunks_exact : ℕ → List ℕ → List (List ℕ)
unfolding cut
chunks_exact size xs = cut (length xs / size) size xs

-- `slices[k].extend_from_slice(element)`; the source's `k` is below the count.
unfoldable pub extend_at {ℓ} : {A : Type ℓ} → ℕ → List A → List (List A) → List (List A)
extend_at k element [] = []
extend_at zero element (s ∷ slices) = (s ++ element) ∷ slices
extend_at (suc k) element (s ∷ slices) = s ∷ extend_at k element slices

-- The loop over the elements, from element `i`.
unfoldable pub deal {ℓ} : {A : Type ℓ} → ℕ → ℕ → List (List A) → List (List A) → List (List A)
unfolding extend_at
deal n i [] slices = slices
deal n i (element ∷ elements) slices = deal n (i + 1) elements (extend_at (i % n) element slices)

unfoldable pub deal_over : ℕ → List ℕ → Result SliceError ℕ → Result SliceError (List (List ℕ))
unfolding deal replicate
deal_over element_size elements (err e) = err e
deal_over element_size elements (ok n) =
    ok (deal n 0 (chunks_exact element_size elements) (replicate n []))

unfoldable pub interleave :
    (elements : List ℕ) (element_size max_payload : ℕ) → Result SliceError (List (List ℕ))
unfolding deal_over
interleave elements element_size max_payload =
    if element_size == 0
    then err zero_element_size
    else if length elements % element_size == 0
    then deal_over element_size elements
        (slice_count (length elements / element_size) element_size max_payload)
    else err (partial_element (length elements) element_size)

-- The datagrams of the payloads, numbered from `k`.
unfoldable pub datagrams :
    (sensor_id frame_seq capture_time_us count k : ℕ) → List (List ℕ) → List (List ℕ)
datagrams sensor_id frame_seq capture_time_us count k [] = []
datagrams sensor_id frame_seq capture_time_us count k (payload ∷ payloads) =
    (encode
        (record {
          sensor_id = sensor_id;
          frame_seq = frame_seq;
          capture_time_us = capture_time_us;
          slice_index = k % 65536;
          slice_count = count;
        })
        (tag_sensor_slice ∷ [])
      ++ payload)
    ∷ datagrams sensor_id frame_seq capture_time_us count (k + 1) payloads

unfoldable pub tagged :
    (sensor_id frame_seq capture_time_us : ℕ)
    → Result SliceError (List (List ℕ))
    → Result SliceError (List (List ℕ))
unfolding datagrams
tagged sensor_id frame_seq capture_time_us (err e) = err e
tagged sensor_id frame_seq capture_time_us (ok payloads) =
    ok (datagrams sensor_id frame_seq capture_time_us (length payloads % 65536) 0 payloads)

unfoldable pub slice_frame :
    (sensor_id frame_seq capture_time_us : ℕ) (elements : List ℕ) (element_size max_payload : ℕ)
    → Result SliceError (List (List ℕ))
unfolding tagged
slice_frame sensor_id frame_seq capture_time_us elements element_size max_payload =
    tagged sensor_id frame_seq capture_time_us (interleave elements element_size max_payload)

pub record AssembledFrame : Type 0 where
  pub sensor_id : ℕ
  pub frame_seq : ℕ
  pub capture_time_us : ℕ
  pub slices : List (Option (List ℕ))

pub record Deinterleaved : Type 0 where
  pub bytes : List ℕ
  pub present : List Bool

abbrev pub is_some : {A : Type 0} → Option A → Bool
is_some none = false
is_some (some a) = true

unfoldable pub count_received : List (Option (List ℕ)) → ℕ
count_received [] = 0
count_received (none ∷ slices) = count_received slices
count_received (some s ∷ slices) = suc (count_received slices)

unfoldable pub slices_received : AssembledFrame → ℕ
unfolding count_received
slices_received f = count_received f.slices

unfoldable pub all_received : List (Option (List ℕ)) → Bool
all_received [] = true
all_received (none ∷ slices) = false
all_received (some s ∷ slices) = all_received slices

unfoldable pub is_complete : AssembledFrame → Bool
unfolding all_received
is_complete f = all_received f.slices

-- `bytes[at..at + element.len()].copy_from_slice(element)`, in bounds in the source.
unfoldable pub copy_at : ℕ → List ℕ → List ℕ → List ℕ
copy_at from element bytes = take from bytes ++ (element ++ drop (from + length element) bytes)

-- The elements of slice `k`, from its `j`-th, put to their places; the first one beyond
-- `element_count` ends the loop.
unfoldable pub place :
    (n element_size element_count k j : ℕ) → List (List ℕ) → Deinterleaved → Deinterleaved
unfolding copy_at set
place n element_size element_count k j [] d = d
place n element_size element_count k j (element ∷ elements) d =
    let idx : ℕ = k + j * n in
    let rest = place n element_size element_count k (j + 1) elements (record {
      bytes = copy_at (idx * element_size) element d.bytes;
      present = set d.present idx true;
    }) in
    if leb element_count idx then d else rest

-- The loop over the slices, from slice `k`.
unfoldable pub place_all :
    (n element_size element_count k : ℕ) → List (Option (List ℕ)) → Deinterleaved → Deinterleaved
unfolding place
place_all n element_size element_count k [] d = d
place_all n element_size element_count k (none ∷ slices) d =
    place_all n element_size element_count (k + 1) slices d
place_all n element_size element_count k (some s ∷ slices) d =
    place_all n element_size element_count (k + 1) slices
      (place n element_size element_count k 0 (chunks_exact element_size s) d)

abbrev pub blank : ℕ → ℕ → Deinterleaved
blank element_size element_count = record {
  bytes = replicate (element_count * element_size) 0;
  present = replicate element_count false;
}

unfoldable pub deinterleave : AssembledFrame → (element_size element_count : ℕ) → Deinterleaved
unfolding place_all replicate
deinterleave f element_size element_count =
    if element_size == 0
    then blank element_size element_count
    else place_all (length f.slices) element_size element_count 0 f.slices
        (blank element_size element_count)

-- Every whole element received, in the order of the slices.
unfoldable pub received_from : ℕ → List (Option (List ℕ)) → List ℕ
received_from element_size [] = []
received_from element_size (none ∷ slices) = received_from element_size slices
received_from element_size (some s ∷ slices) =
    take (length s - length s % element_size) s ++ received_from element_size slices

unfoldable pub received_elements : AssembledFrame → ℕ → List ℕ
unfolding received_from
received_elements f element_size =
    if element_size == 0 then [] else received_from element_size f.slices
