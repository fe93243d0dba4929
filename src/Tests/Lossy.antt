-- ===== src/Tests/Lossy.antt =====
-- The theorems on the lossy queue at concrete inputs.
use robotele.Prelude.{ℕ, none, ◌≡◌, refl, length, List, [], ◌∷◌}
use robotele.Lossy.Queue.{LossyStats, sensor_or_default}
use robotele.Lossy.Queue.Sensors.{
  SensorCall, frame_pushed, slice_sent, replay_sensor, Whole, replay_sensor-Whole,
}
use robotele.Lossy.Queue.Video.Gapless.{Gapless}
use robotele.Lossy.Queue.Video.Sent.{Call, push_video, push_sensor, pop_next}

-- An IDR, two deltas behind a sensor's frame, pops, and a delta that comes too late.
abbrev session : List Call
session =
    push_video 3 (0x41 ∷ 6 ∷ []) 400_000_000
    ∷ pop_next 399_000_000
    ∷ pop_next 2_000_000
    ∷ pop_next 2_000_000
    ∷ pop_next 2_000_000
    ∷ push_sensor 1 ((4 ∷ 9 ∷ []) ∷ [])
    ∷ push_video 2 (0x41 ∷ 5 ∷ []) 1_000_000
    ∷ push_video 1 (0x41 ∷ 4 ∷ []) 1_000_000
    ∷ push_video 0 (0x65 ∷ 3 ∷ []) 0
    ∷ []

-- Frames of two slices: the first is partly sent when two others come.
abbrev sensor_calls : List SensorCall
sensor_calls =
    slice_sent
    ∷ slice_sent
    ∷ frame_pushed ((5 ∷ []) ∷ (6 ∷ []) ∷ [])
    ∷ frame_pushed ((3 ∷ []) ∷ (4 ∷ []) ∷ [])
    ∷ slice_sent
    ∷ frame_pushed ((1 ∷ []) ∷ (2 ∷ []) ∷ [])
    ∷ []

abbrev no_stats : LossyStats
no_stats = record {
  video_nals_dropped = 0;
  sensor_frames_cut = 0;
  sensor_frames_skipped = 0;
  sensor_slices_dropped = 0;
}

abbrev TwoSlices : List (List ℕ) → Type 0
TwoSlices frame = length frame ≡ 2

replay_sensor-Whole_example :
    let (s, sent) = replay_sensor (sensor_or_default none, []) no_stats sensor_calls in
    Whole TwoSlices sent s
replay_sensor-Whole_example =
    replay_sensor-Whole TwoSlices no_stats sensor_calls (refl, (refl, (refl, tt)))
