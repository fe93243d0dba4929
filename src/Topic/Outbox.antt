-- ===== src/Topic/Outbox.antt =====
-- crates/roboprotocol-core/src/topic.rs: the samples that wait for the connection.
pub mod Lanes
pub mod Latest
pub mod Backlog
use robotele.Prelude.{
  ℕ, zero, suc, ◌+◌, ◌-◌, ◌%◌, ◌^◌, Bool, true, false, not, ◌||◌, Option, none, some, List, [], ◌∷◌,
  ◌++◌, ltb, leb, ◌==◌, if◌then◌else◌, length, take, drop, min,
}
use robotele.Prelude.Assoc.{list_eq, lookup, insert, remove}
use robotele.Prelude.Bytes.{to_be_bytes}
use robotele.Wire.Datagram.{tag_topic}
use robotele.Topic.Sample.{
  TopicSample, encode, encoded_len, max_topic_sample, topic_stream_magic, topic_stream_version,
}

abbrev pub default_reliable_backlog : ℕ
default_reliable_backlog = 4_194_304

abbrev pub small_sample_max : ℕ
small_sample_max = 16_384

pub data TopicMode : Type 0 where
  latest_mode reliable_mode : TopicMode

pub data ReliableLane : Type 0 where
  small large : ReliableLane

pub record OutboxStats : Type 0 where
  pub latest_sent : ℕ
  pub latest_superseded : ℕ
  pub latest_oversize : ℕ
  pub reliable_queued : ℕ
  pub reliable_large : ℕ
  pub reliable_dropped : ℕ

pub record Lane : Type 0 where
  pub buf : List ℕ
  pub started : Bool
  pub consumed : ℕ
  pub frames : List (List ℕ × ℕ)

pub record TopicOutbox : Type 0 where
  pub latest : List (List ℕ × List ℕ)
  pub order : List (List ℕ)
  pub small_lane : Lane
  pub large_lane : Lane
  pub large_pending : List (List ℕ × ℕ)
  pub reliable_backlog : ℕ
  pub stats : OutboxStats

abbrev pub empty_lane : Lane
empty_lane = record { buf = []; started = false; consumed = 0; frames = [] }

unfoldable pub with_backlog : ℕ → TopicOutbox
with_backlog reliable_backlog = record {
  latest = [];
  order = [];
  small_lane = empty_lane;
  large_lane = empty_lane;
  large_pending = [];
  reliable_backlog = reliable_backlog;
  stats = record {
    latest_sent = 0;
    latest_superseded = 0;
    latest_oversize = 0;
    reliable_queued = 0;
    reliable_large = 0;
    reliable_dropped = 0;
  };
}

abbrev pub get_lane : ReliableLane → TopicOutbox → Lane
get_lane small o = o.small_lane
get_lane large o = o.large_lane

abbrev pub set_lane : ReliableLane → Lane → TopicOutbox → TopicOutbox
set_lane small lane o = record o { small_lane = lane }
set_lane large lane o = record o { large_lane = lane }

unfoldable pub push_latest : TopicSample → TopicOutbox → TopicOutbox
push_latest s o =
    let latest = insert s.key (tag_topic ∷ encode s) o.latest in
    elim (lookup s.key o.latest) [
      | some d ↦ record o {
        latest = latest;
        stats = record o.stats { latest_superseded = o.stats.latest_superseded + 1 };
      }
      | none ↦ record o { latest = latest; order = o.order ++ s.key ∷ [] }
    ]

abbrev pub is_some : Option ℕ → Bool
is_some none = false
is_some (some n) = true

-- The lane that a sample goes on.
unfoldable pub lane_of : TopicSample → TopicOutbox → ReliableLane
lane_of s o =
    if ltb small_sample_max (encoded_len s) || is_some (lookup s.key o.large_pending)
    then large
    else small

unfoldable pub is_dropped : TopicSample → TopicOutbox → Bool
is_dropped s o =
    ltb max_topic_sample (encoded_len s)
    || ltb o.reliable_backlog (length (get_lane (lane_of s o) o).buf + 4 + encoded_len s)

-- The stream's header, on its first frame.
abbrev pub stream_header : Bool → List ℕ
stream_header true = []
stream_header false = topic_stream_magic ∷ topic_stream_version ∷ []

abbrev pub frame_bytes : TopicSample → List ℕ
frame_bytes s = to_be_bytes 4 (encoded_len s % 2 ^ 32) ++ encode s

unfoldable pub push_frame : TopicSample → Lane → Lane
push_frame s lane = record lane {
  buf = lane.buf ++ (stream_header lane.started ++ frame_bytes s);
  started = true;
}

abbrev pub count_of : Option ℕ → ℕ
count_of none = 0
count_of (some n) = n

-- A frame on the large lane is noted under its key, with its end.
unfoldable pub note_frame : ReliableLane → TopicSample → TopicOutbox → TopicOutbox
note_frame small s o = o
note_frame large s o =
    let lane = o.large_lane in
    record o {
      large_lane = record lane {
        frames = lane.frames ++ (s.key, lane.consumed + length lane.buf) ∷ [];
      };
      large_pending = insert s.key (count_of (lookup s.key o.large_pending) + 1) o.large_pending;
      stats = record o.stats { reliable_large = o.stats.reliable_large + 1 };
    }

abbrev pub drop_sample : TopicOutbox → TopicOutbox
drop_sample o = record o {
  stats = record o.stats { reliable_dropped = o.stats.reliable_dropped + 1 };
}

abbrev pub queue_sample : ReliableLane → TopicSample → TopicOutbox → TopicOutbox
queue_sample lane s o =
    let queued = set_lane lane (push_frame s (get_lane lane o)) o in
    note_frame lane s
      (record queued { stats = record o.stats { reliable_queued = o.stats.reliable_queued + 1 } })

unfoldable pub push_reliable : TopicSample → TopicOutbox → TopicOutbox
push_reliable s o = if is_dropped s o then drop_sample o else queue_sample (lane_of s o) s o

abbrev pub push : TopicMode → TopicSample → TopicOutbox → TopicOutbox
push latest_mode s o = push_latest s o
push reliable_mode s o = push_reliable s o

abbrev pub has_datagram : TopicOutbox → Bool
has_datagram o = not (length o.order == 0)

-- One datagram less for the key, which goes when none is left.
abbrev pub count_down : List ℕ → Option ℕ → List (List ℕ × ℕ) → List (List ℕ × ℕ)
count_down key none pending = pending
count_down key (some n) pending =
    if n - 1 == 0 then remove key pending else insert key (n - 1) pending

-- The frames that are not fully taken, and the counts by key.
unfoldable pub settle_frames :
    ℕ → List (List ℕ × ℕ) → List (List ℕ × ℕ) → List (List ℕ × ℕ) × List (List ℕ × ℕ)
settle_frames consumed [] pending = ([], pending)
settle_frames consumed ((key, end) ∷ frames) pending =
    let rest = settle_frames consumed frames (count_down key (lookup key pending) pending) in
    if leb end consumed then rest else ((key, end) ∷ frames, pending)

unfoldable pub take_bytes : ℕ → Lane → Lane
take_bytes n lane =
    let m = min n (length lane.buf) in
    record lane { buf = drop m lane.buf; consumed = lane.consumed + m }

unfoldable pub consume_reliable : ReliableLane → ℕ → TopicOutbox → TopicOutbox
consume_reliable which n o =
    let lane = take_bytes n (get_lane which o) in
    let (frames, pending) = settle_frames lane.consumed lane.frames o.large_pending in
    record (set_lane which (record lane { frames = frames }) o) { large_pending = pending }

-- What `pop_datagram` gives: `expect` fails on a queued key without a datagram.
pub data Popped : Type 0 where
  nothing panicked : Popped
  datagram : List ℕ → Popped

abbrev pub drop_oversize : List ℕ → TopicOutbox → TopicOutbox
drop_oversize key o = record o {
  latest = remove key o.latest;
  stats = record o.stats { latest_oversize = o.stats.latest_oversize + 1 };
}

abbrev pub send_latest : List ℕ → List (List ℕ) → TopicOutbox → TopicOutbox
send_latest key order o = record o {
  latest = remove key o.latest;
  order = order;
  stats = record o.stats { latest_sent = o.stats.latest_sent + 1 };
}

-- The loop over the queued keys.
unfoldable pub pop_from : ℕ → List (List ℕ) → TopicOutbox → Popped × TopicOutbox
pop_from max_len [] o = (nothing, record o { order = [] })
pop_from max_len (key ∷ order) o =
    let rest = pop_from max_len order (drop_oversize key o) in
    elim (lookup key o.latest) [
      | none ↦ (panicked, o)
      | some d ↦ if leb (length d) max_len then (datagram d, send_latest key order o) else rest
    ]

unfoldable pub pop_datagram : ℕ → TopicOutbox → Popped × TopicOutbox
unfolding pop_from
pop_datagram max_len o = pop_from max_len o.order o
