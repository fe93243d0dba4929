-- ===== src/Lossy/Queue/Video/Sent.antt =====
-- What `pop` sends, over any calls.
use robotele.Prelude.{
  ℕ, ◌≡◌, ap, ◌∙◌, Bool, true, false, Option, none, some, List, [], ◌∷◌, ◌++◌, ltb, length,
  if◌then◌else◌,
}
use robotele.Lossy.Queue.{
  LossyQueue, SensorFramePolicy, push_video_nal, expire_stale_video, pop_video, pop_sensor, pop,
  pop_either, turn, or_else, push_sensor_frame, with_sensor_policy,
}
use robotele.Lossy.Queue.Video.{waiting, front_delta, pop_front-popped, pop_sensor-video}
use robotele.Lossy.Queue.Video.Gapless.{Gapless, pushed_after, sent_after}

abbrev video_unless : Option (List ℕ) → List (List ℕ) → List (List ℕ)
video_unless none chunks = chunks
video_unless (some slice) chunks = []

abbrev sent_either : Bool → LossyQueue → List (List ℕ)
sent_either true q = front_delta q.video
sent_either false q = video_unless (pop_sensor q).0 (front_delta q.video)

-- The delta chunk that `pop` hands over, if it hands one over.
unfoldable pub sent_now : ℕ → LossyQueue → List (List ℕ)
sent_now now q =
    let expired = expire_stale_video now q in sent_either expired.video_turn (turn expired)

-- `sent_now` is what `pop` returns.
video_unless-popped :
    (x : Option (List ℕ) × LossyQueue) (front : List (List ℕ)) (c : List ℕ)
    → front_delta x.1.video ≡ front
    → video_unless x.0 front ≡ c ∷ []
    → (or_else x pop_video).0 ≡ some c
unfolding pop_video
video_unless-popped (some s, q) front c e h = cc
video_unless-popped (none, q) front c e h = pop_front-popped q.video c (e ∙ h)

or_sensor-popped :
    (x : Option (List ℕ) × LossyQueue) (c : List ℕ)
    → x.0 ≡ some c
    → (or_else x pop_sensor).0 ≡ some c
or_sensor-popped (some s, q) c h = h
or_sensor-popped (none, q) c h = cc

sent_either-popped :
    (first_video : Bool) (q : LossyQueue) (c : List ℕ)
    → sent_either first_video q ≡ c ∷ []
    → (pop_either first_video q).0 ≡ some c
unfolding pop_video
sent_either-popped true q c h = or_sensor-popped (pop_video q) c (pop_front-popped q.video c h)
sent_either-popped false q c h =
    video_unless-popped (pop_sensor q) (front_delta q.video) c
      (ap front_delta (pop_sensor-video q).0) h

pub sent_now-popped :
    (now : ℕ) (q : LossyQueue) (c : List ℕ) → sent_now now q ≡ c ∷ [] → (pop now q).0 ≡ some c
unfolding pop sent_now
sent_now-popped now q c h =
    let e = expire_stale_video now q in sent_either-popped e.video_turn (turn e) c h

abbrev to_list : Option (List ℕ) → List (List ℕ)
to_list none = []
to_list (some c) = c ∷ []

-- What `pop` returns, where it leaves fewer delta chunks waiting than the removal of stale ones did.
unfoldable pub popped : ℕ → LossyQueue → List (List ℕ)
popped now q =
    if ltb (length (waiting (pop now q).1.video))
      (length (waiting (expire_stale_video now q).video))
    then to_list (pop now q).0
    else []

abbrev AtMostOne : List (List ℕ) → Type 0
AtMostOne [] = Unit {0}
AtMostOne (c ∷ []) = Unit {0}
AtMostOne (c ∷ (d ∷ cs)) = ⊥

-- The calls on a queue.
pub data Call : Type 0 where
  push_video : (nal_id : ℕ) (nal : List ℕ) (now : ℕ) → Call
  push_sensor : (sensor_id : ℕ) (datagrams : List (List ℕ)) → Call
  pop_next : (now : ℕ) → Call

unfoldable pub apply : Call → LossyQueue → LossyQueue
apply (push_video nal_id nal now) q = push_video_nal nal_id nal now q
apply (push_sensor sensor_id datagrams) q = push_sensor_frame sensor_id datagrams q
apply (pop_next now) q = (pop now q).1

-- The queue after the calls, the newest first.
unfoldable pub replay : SensorFramePolicy → List Call → LossyQueue
unfolding apply
replay policy [] = with_sensor_policy policy
replay policy (c ∷ cs) = apply c (replay policy cs)

-- The delta chunks that were pushed and those that were popped, each since the last IDR.
unfoldable pub pushed_by : List Call → List (List ℕ)
pushed_by [] = []
pushed_by (push_video nal_id nal now ∷ cs) = pushed_after nal_id nal (pushed_by cs)
pushed_by (push_sensor sensor_id datagrams ∷ cs) = pushed_by cs
pushed_by (pop_next now ∷ cs) = pushed_by cs

unfoldable pub sent_by : SensorFramePolicy → List Call → List (List ℕ)
sent_by policy [] = []
sent_by policy (push_video nal_id nal now ∷ cs) = sent_after nal (sent_by policy cs)
sent_by policy (push_sensor sensor_id datagrams ∷ cs) = sent_by policy cs
sent_by policy (pop_next now ∷ cs) = sent_by policy cs ++ popped now (replay policy cs)
