-- ===== src/Tests/Sensor.antt =====
-- The theorems on sensor slices at concrete inputs.
use robotele.Prelude.{
  ℕ, ◌≡◌, ◌↔◌, refl, Bool, true, false, ◌++◌, ◌≤◌, ◌==◌, none, some, List, [], ◌∷◌, arith, length,
  max,
}
use robotele.Prelude.Result.{ok}
use robotele.Prelude.Positions.{replicate}
use robotele.Sensor.Slice.{SliceHeader, encode, decode, decode-encode_slice, slice_count}
use robotele.Video.Chunk.{div_ceil}
use robotele.Sensor.Interleave.{interleave, deal_over, chunks_exact, deinterleave}
use robotele.Sensor.Interleave.Elements.{concat}
use robotele.Sensor.Interleave.Accepted.{Fits, interleave-Fits}
use robotele.Sensor.Interleave.Bytewise.{marked}
use robotele.Sensor.Interleave.Restored.{surviving, partial_frame, deinterleave-interleave}
use robotele.Sensor.Assembler.{FrameAssembler, new}
use robotele.Sensor.Interleave.{AssembledFrame}
use robotele.Sensor.Assembler.History.{Call, slice_arrives, time_passes, run, Rises}
use robotele.Sensor.Assembler.Genuine.{run-Rises}
use robotele.Sensor.Assembler.Along.{RestoredAlong, run-IsRestored}

-- Three elements of two bytes.
abbrev three_elements : List ℕ
three_elements = 1 ∷ 2 ∷ 3 ∷ 4 ∷ 5 ∷ 6 ∷ []

-- Cut into two slices of at most five bytes.
abbrev two_slices : List (List ℕ)
two_slices = (1 ∷ 2 ∷ 5 ∷ 6 ∷ []) ∷ (3 ∷ 4 ∷ []) ∷ []

is_cut : interleave three_elements 2 5 ≡ ok two_slices
unfolding interleave deal_over slice_count chunks_exact div_ceil
is_cut = refl

interleave-Fits_example :
    ((payloads : List (List ℕ)) × (interleave three_elements 2 5 ≡ ok payloads))
    ↔ Fits three_elements 2 5
interleave-Fits_example = interleave-Fits three_elements 2 5

abbrev first_only : ℕ → Bool
first_only k = k == 0

deinterleave-interleave_example :
    deinterleave (partial_frame 7 1 0 first_only two_slices) 2 3 ≡ record {
      bytes = concat (surviving 2 first_only (replicate 2 0) 0 (chunks_exact 2 three_elements));
      present = surviving 2 first_only false 0 (marked (chunks_exact 2 three_elements));
    }
deinterleave-interleave_example =
    deinterleave-interleave 7 1 0 first_only three_elements 2 5 two_slices is_cut

-- The second slice is lost, and with it the second element.
lost_second :
    deinterleave (partial_frame 7 1 0 first_only two_slices) 2 3
    ≡ record { bytes = 1 ∷ 2 ∷ 0 ∷ 0 ∷ 5 ∷ 6 ∷ []; present = true ∷ false ∷ true ∷ [] }
unfolding deinterleave chunks_exact
lost_second = refl

abbrev slice_of : ℕ → ℕ → SliceHeader
slice_of seq k = record {
  sensor_id = 7;
  frame_seq = seq;
  capture_time_us = 0;
  slice_index = k;
  slice_count = 2;
}

-- Frame 2 starts, frame 1 arrives late and out of order, and time passes.
abbrev arrivals : List Call
arrivals =
    slice_arrives (slice_of 2 0) (1 ∷ 2 ∷ 5 ∷ 6 ∷ []) 10
    ∷ slice_arrives (slice_of 1 1) (3 ∷ 4 ∷ []) 20
    ∷ slice_arrives (slice_of 1 0) (1 ∷ 2 ∷ 5 ∷ 6 ∷ []) 30
    ∷ time_passes 200
    ∷ []

run-Rises_example :
    (a : FrameAssembler) × (fs : List AssembledFrame) × (run arrivals (new 100 4) ≡ some (a, fs))
    × Rises none fs a.last_emitted
    × (length a.pending ≤ max 4 1)
run-Rises_example = run-Rises 100 4 arrivals (omega arith, (omega arith, (omega arith, tt)))

run-IsRestored_example :
    RestoredAlong (λ _. three_elements) 2 5 (λ _. two_slices) (λ _. is_cut) [] arrivals (new 100 4)
run-IsRestored_example =
    run-IsRestored (λ _. three_elements) 2 5 (λ _. two_slices) (λ _. is_cut) 100 4 arrivals
      ((refl, omega arith, refl), ((refl, omega arith, refl), ((refl, omega arith, refl), tt)))

decode-encode_slice_example :
    decode (encode (slice_of 2 1) [] ++ 9 ∷ []) ≡ some (slice_of 2 1, 9 ∷ [])
decode-encode_slice_example =
    decode-encode_slice (slice_of 2 1) (9 ∷ []) (omega arith) (omega arith) (omega arith)
      (omega arith)
