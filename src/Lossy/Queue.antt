-- ===== src/Lossy/Queue.antt =====
-- crates/robot-edge/src/lossy_queue.rs: video chunks and sensor slices that wait for the connection.
pub mod Video
pub mod Sensors
use robotele.Prelude.{
  ℕ, zero, suc, ◌+◌, ◌-◌, ◌*◌, ◌%◌, Bool, true, false, ◌||◌, ◌&&◌, not, Option, none, some, List,
  [], ◌∷◌, ◌++◌, map, ltb, leb, ◌==◌, if◌then◌else◌, length, keep, get_or, min,
}
use robotele.Prelude.Assoc.{nat_eq, lookup, insert}
use robotele.Wire.Datagram.{tag, tag_channel_a}
use robotele.Video.Chunk.{chunk_nal}

abbrev pub quiche_lossy_limit : ℕ
quiche_lossy_limit = 8

-- 150 ms, in nanoseconds.
abbrev pub video_max_wait : ℕ
video_max_wait = 150_000_000

abbrev pub nal_idr : ℕ
nal_idr = 5

abbrev pub nal_sps : ℕ
nal_sps = 7

abbrev pub nal_pps : ℕ
nal_pps = 8

pub record PendingNal : Type 0 where
  pub nal_type : ℕ
  pub queued_at : ℕ
  pub chunks : List (List ℕ)

pub record LossyStats : Type 0 where
  pub video_nals_dropped : ℕ
  pub sensor_frames_cut : ℕ
  pub sensor_frames_skipped : ℕ
  pub sensor_slices_dropped : ℕ

pub data SensorFramePolicy : Type 0 where
  cut finish : SensorFramePolicy

pub record SensorQueue : Type 0 where
  pub current : List (List ℕ)
  pub started : Bool
  pub waiting : Option (List (List ℕ))

-- The sensors' map is sorted by id; its order is read through `least` alone.
pub record LossyQueue : Type 0 where
  pub video : List PendingNal
  pub sensors : List (ℕ × SensorQueue)
  pub sensor_policy : SensorFramePolicy
  pub skip_deltas_until_idr : Bool
  pub video_turn : Bool
  pub last_sensor : Option ℕ
  pub stats : LossyStats

unfoldable pub with_sensor_policy : SensorFramePolicy → LossyQueue
with_sensor_policy policy = record {
  video = [];
  sensors = [];
  sensor_policy = policy;
  skip_deltas_until_idr = false;
  video_turn = false;
  last_sensor = none;
  stats = record {
    video_nals_dropped = 0;
    sensor_frames_cut = 0;
    sensor_frames_skipped = 0;
    sensor_slices_dropped = 0;
  };
}

abbrev pub new : LossyQueue
unfolding with_sensor_policy
new = with_sensor_policy cut

abbrev pub is_parameter_set : ℕ → Bool
is_parameter_set nal_type = nal_type == nal_sps || nal_type == nal_pps

-- `is_delta`
abbrev pub is_delta : ℕ → Bool
is_delta nal_type = not (nal_type == nal_idr || is_parameter_set nal_type)

-- `nal.first().map_or(0, |b| b & 0x1F)`
abbrev pub type_of : List ℕ → ℕ
type_of [] = 0
type_of (b ∷ bs) = b % 32

-- `retain` on the video queue, the dropped NAL units counted.
unfoldable pub retain_video : (ℕ → Bool) → LossyQueue → LossyQueue
retain_video keeps q =
    let video = keep (λ (p : PendingNal). keeps p.nal_type) q.video in
    record q {
      video = video;
      stats = record q.stats {
        video_nals_dropped = q.stats.video_nals_dropped + (length q.video - length video);
      };
    }

abbrev pub drop_one : LossyQueue → LossyQueue
drop_one q = record q {
  stats = record q.stats { video_nals_dropped = q.stats.video_nals_dropped + 1 };
}

-- The chunks' cutting and tagging, and `push_back`.
unfoldable pub push_back : ℕ → List ℕ → ℕ → LossyQueue → LossyQueue
push_back nal_id nal now q =
    let pending : PendingNal = record {
      nal_type = type_of nal;
      queued_at = now;
      chunks = map (tag tag_channel_a) (chunk_nal nal_id nal);
    } in
    record q { video = q.video ++ pending ∷ [] }

unfoldable pub push_video_nal : ℕ → List ℕ → ℕ → LossyQueue → LossyQueue
push_video_nal nal_id nal now q =
    let nal_type = type_of nal in
    if is_parameter_set nal_type
    then push_back nal_id nal now (retain_video (λ t. not (t == nal_type)) q)
    else if nal_type == nal_idr
    then push_back nal_id nal now
        (retain_video is_parameter_set (record q { skip_deltas_until_idr = false }))
    else if q.skip_deltas_until_idr
    then drop_one q
    else push_back nal_id nal now q

-- `iter().any(...)`
unfoldable pub any_stale : ℕ → List PendingNal → Bool
any_stale now [] = false
any_stale now (p ∷ ps) =
    (is_delta p.nal_type && ltb video_max_wait (now - p.queued_at)) || any_stale now ps

unfoldable pub expire_stale_video : ℕ → LossyQueue → LossyQueue
expire_stale_video now q =
    if any_stale now q.video
    then record (retain_video (λ t. not (is_delta t)) q) { skip_deltas_until_idr = true }
    else q

abbrev pub sensor_or_default : Option SensorQueue → SensorQueue
sensor_or_default none = record { current = []; started = false; waiting = none }
sensor_or_default (some s) = s

abbrev pub is_nil : List (List ℕ) → Bool
is_nil [] = true
is_nil (x ∷ xs) = false

abbrev pub waiting_len : Option (List (List ℕ)) → ℕ
waiting_len none = 0
waiting_len (some old) = length old

abbrev pub frames_in : Option (List (List ℕ)) → ℕ
frames_in none = 0
frames_in (some old) = 1

abbrev pub frames_of : List (List ℕ) → ℕ
frames_of current = if is_nil current then 0 else 1

abbrev pub replace_current : List (List ℕ) → SensorQueue → SensorQueue
replace_current datagrams s = record s { current = datagrams; started = false }

abbrev pub cut_stats : List (List ℕ) → LossyStats → LossyStats
cut_stats current t = record t {
  sensor_frames_cut = t.sensor_frames_cut + frames_of current;
  sensor_slices_dropped = t.sensor_slices_dropped + length current;
}

abbrev pub skip_stats : (frames slices : ℕ) → LossyStats → LossyStats
skip_stats frames slices t = record t {
  sensor_frames_skipped = t.sensor_frames_skipped + frames;
  sensor_slices_dropped = t.sensor_slices_dropped + slices;
}

-- The sensor's queue and the statistics, by the policy.
unfoldable pub accept_frame :
    SensorFramePolicy → List (List ℕ) → SensorQueue → LossyStats → SensorQueue × LossyStats
accept_frame cut datagrams s t = (replace_current datagrams s, cut_stats s.current t)
accept_frame finish datagrams s t =
    if is_nil s.current || not s.started
    then (replace_current datagrams s, skip_stats (frames_of s.current) (length s.current) t)
    else (
      record s { waiting = some datagrams },
      skip_stats (frames_in s.waiting) (waiting_len s.waiting) t,
    )

unfoldable pub push_sensor_frame : ℕ → List (List ℕ) → LossyQueue → LossyQueue
push_sensor_frame sensor_id datagrams q =
    let (s, t) =
      accept_frame q.sensor_policy datagrams (sensor_or_default (lookup sensor_id q.sensors))
        q.stats in
    record q { sensors = insert sensor_id s q.sensors; stats = t }

-- The front NAL unit's chunks, and what the queue is without the first of them.
abbrev pub pop_chunk :
    PendingNal → List PendingNal → List (List ℕ) → Option (List ℕ) × List PendingNal
pop_chunk front rest [] = (none, rest)
pop_chunk front rest (chunk ∷ []) = (some chunk, rest)
pop_chunk front rest (chunk ∷ (next ∷ more)) =
    (some chunk, record front { chunks = next ∷ more } ∷ rest)

abbrev pub pop_front : List PendingNal → Option (List ℕ) × List PendingNal
pop_front [] = (none, [])
pop_front (front ∷ rest) = pop_chunk front rest front.chunks

unfoldable pub pop_video : LossyQueue → Option (List ℕ) × LossyQueue
pop_video q = let (chunk, video) = pop_front q.video in (chunk, record q { video = video })

abbrev pub is_empty : SensorQueue → Bool
is_empty s = is_nil s.current && (elim s.waiting [ none ↦ true | some w ↦ false ])

abbrev pub min_opt : ℕ → Option ℕ → ℕ
min_opt k none = k
min_opt k (some j) = min k j

-- The first id in ascending order that a test keeps, of the sensors with slices waiting.
unfoldable pub least : (ℕ → Bool) → List (ℕ × SensorQueue) → Option ℕ
least p [] = none
least p ((k, s) ∷ m) =
    let rest = least p m in if not (is_empty s) && p k then some (min_opt k rest) else rest

abbrev pub is_after : Option ℕ → ℕ → Bool
is_after none id = true
is_after (some last) id = ltb last id

-- Round-robin: the next id behind the last one, or else the first.
unfoldable pub next_sensor : LossyQueue → Option ℕ
next_sensor q = elim (least (is_after q.last_sensor) q.sensors) [
  | some id ↦ some id
  | none ↦ least (λ id. true) q.sensors
]

-- The waiting frame, if there is one, in place of a current one that is sent.
abbrev pub promote : SensorQueue → SensorQueue
promote s =
    if is_nil s.current
    then (elim s.waiting [
      | none ↦ s
      | some w ↦ record s { current = w; started = false; waiting = none }
    ])
    else s

abbrev pub first_slice : List (List ℕ) → Option (List ℕ)
first_slice [] = none
first_slice (x ∷ xs) = some x

abbrev pub other_slices : List (List ℕ) → List (List ℕ)
other_slices [] = []
other_slices (x ∷ xs) = xs

-- `current.pop_front()` and what follows it.
unfoldable pub send_slice : SensorQueue → Option (List ℕ) × SensorQueue
send_slice s =
    (first_slice s.current, promote (record s { current = other_slices s.current; started = true }))

unfoldable pub pop_sensor : LossyQueue → Option (List ℕ) × LossyQueue
pop_sensor q = elim (next_sensor q) [
  | none ↦ (none, q)
  | some id ↦
      let (slice, s) = send_slice (promote (sensor_or_default (lookup id q.sensors))) in
      (slice, record q { last_sensor = some id; sensors = insert id s q.sensors })
]

abbrev pub or_else :
    Option (List ℕ) × LossyQueue
    → (LossyQueue → Option (List ℕ) × LossyQueue)
    → Option (List ℕ) × LossyQueue
or_else (some x, q) next = (some x, q)
or_else (none, q) next = next q

-- The class that `first_video` names, and then the other one.
abbrev pub pop_either : (first_video : Bool) → LossyQueue → Option (List ℕ) × LossyQueue
pop_either true q = or_else (pop_video q) pop_sensor
pop_either false q = or_else (pop_sensor q) pop_video

abbrev pub turn : LossyQueue → LossyQueue
turn q = record q { video_turn = not q.video_turn }

unfoldable pub pop : ℕ → LossyQueue → Option (List ℕ) × LossyQueue
pop now q = let expired = expire_stale_video now q in pop_either expired.video_turn (turn expired)
