-- ===== src/Lossy/Queue/Video/Fresh.antt =====
-- No delta waits longer than the limit.
use robotele.Prelude.{
  ℕ, ◌-◌, ◌≡◌, ◌≤◌, Bool, true, false, not, Option, none, some, List, [], ◌∷◌, keep, arith,
  Bool-cases, inl, inr, ltb_false→le,
}
use robotele.Lossy.Queue.{
  PendingNal, LossyQueue, is_delta, retain_video, any_stale, expire_stale_video, pop_video,
  pop_front, pop_chunk, pop_sensor, pop, pop_either, turn, or_else, video_max_wait,
}
use robotele.Lossy.Queue.Video.{pop_sensor-video}

-- Every delta in the queue has waited for the limit at most.
abbrev pub Fresh : ℕ → List PendingNal → Type 0
Fresh now [] = Unit {0}
Fresh now (p ∷ ps) =
    ((is_delta p.nal_type ≡ true) → now - p.queued_at ≤ video_max_wait) × Fresh now ps

not_stale-Fresh : (now : ℕ) (ps : List PendingNal) → any_stale now ps ≡ false → Fresh now ps
unfolding any_stale
not_stale-Fresh now [] h = tt
not_stale-Fresh now (p ∷ ps) h = (
  λ d. ground (arith, h, d, ltb_false→le video_max_wait (now - p.queued_at)),
  not_stale-Fresh now ps (ground (arith, h)),
)

no_delta-Fresh :
    (now : ℕ) (ps : List PendingNal)
    → Fresh now (keep (λ (p : PendingNal). not (is_delta p.nal_type)) ps)
no_delta-Fresh now [] = tt
no_delta-Fresh now (p ∷ ps) = elim (Bool-cases (is_delta p.nal_type)) [
  | inl d ↦ rw (d, keep) (no_delta-Fresh now ps)
  | inr d ↦ rw (d, keep) ((λ e. cc), no_delta-Fresh now ps)
]

expire-Fresh : (now : ℕ) (q : LossyQueue) → Fresh now (expire_stale_video now q).video
unfolding expire_stale_video retain_video
expire-Fresh now q = elim (Bool-cases (any_stale now q.video)) [
  | inl e ↦ rw (e, expire_stale_video) (no_delta-Fresh now q.video)
  | inr e ↦ rw (e, expire_stale_video) (not_stale-Fresh now q.video e)
]

pop_chunk-Fresh :
    (now : ℕ) (p : PendingNal) (ps : List PendingNal) (chunks : List (List ℕ))
    → Fresh now (p ∷ ps)
    → Fresh now (pop_chunk p ps chunks).1
pop_chunk-Fresh now p ps [] h = h.1
pop_chunk-Fresh now p ps (c ∷ []) h = h.1
pop_chunk-Fresh now p ps (c ∷ (d ∷ cs)) h = h

pop_front-Fresh : (now : ℕ) (ps : List PendingNal) → Fresh now ps → Fresh now (pop_front ps).1
pop_front-Fresh now [] h = tt
pop_front-Fresh now (p ∷ ps) h = pop_chunk-Fresh now p ps p.chunks h

video_or_else-Fresh :
    (now : ℕ) (x : Option (List ℕ) × LossyQueue)
    → Fresh now x.1.video
    → Fresh now (or_else x pop_video).1.video
unfolding pop_video
video_or_else-Fresh now (some c, q) h = h
video_or_else-Fresh now (none, q) h = pop_front-Fresh now q.video h

sensor_or_else-Fresh :
    (now : ℕ) (x : Option (List ℕ) × LossyQueue)
    → Fresh now x.1.video
    → Fresh now (or_else x pop_sensor).1.video
sensor_or_else-Fresh now (some c, q) h = h
sensor_or_else-Fresh now (none, q) h = rw ((pop_sensor-video q).0) h

pop_either-Fresh :
    (now : ℕ) (first_video : Bool) (q : LossyQueue)
    → Fresh now q.video
    → Fresh now (pop_either first_video q).1.video
unfolding pop_video
pop_either-Fresh now true q h =
    sensor_or_else-Fresh now (pop_video q) (pop_front-Fresh now q.video h)
pop_either-Fresh now false q h =
    video_or_else-Fresh now (pop_sensor q) (rw ((pop_sensor-video q).0) h)

-- Whatever the queue held, no delta that still waits after a `pop` has waited over 150 ms by then.
pub pop-Fresh : (now : ℕ) (q : LossyQueue) → Fresh now (pop now q).1.video
unfolding pop
pop-Fresh now q =
    let e = expire_stale_video now q in
    pop_either-Fresh now e.video_turn (turn e) (expire-Fresh now q)
