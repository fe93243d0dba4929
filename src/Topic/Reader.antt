-- ===== src/Topic/Reader.antt =====
-- crates/roboprotocol-core/src/topic.rs: the samples of a reliable stream, from its bytes.
pub mod Pieces
pub mod Checked
use robotele.Prelude.{
  ℕ, zero, suc, ◌+◌, Bool, true, false, not, Option, none, some, List, [], ◌∷◌, ◌++◌, ltb, ◌==◌,
  ◌&&◌, if◌then◌else◌, length, take, drop, get_or,
}
use robotele.Prelude.Bytes.{from_be_bytes}
use robotele.Prelude.Result.{Result, ok, err}
use robotele.Topic.Sample.{
  TopicSample, TopicError, too_large, bad_stream_header, decode, max_topic_sample,
  topic_stream_magic, topic_stream_version,
}

pub record TopicStreamReader : Type 0 where
  pub buf : List ℕ
  pub header_seen : Bool
  pub failed : Bool

abbrev pub new : TopicStreamReader
new = record { buf = []; header_seen = false; failed = false }

-- What a call returns, and the reader after it.
pub record Pushed : Type 0 where
  pub samples : List TopicSample
  pub errors : List TopicError
  pub reader : TopicStreamReader

-- One turn of the loop, at the bytes from `at` on.
pub data Turn : Type 0 where
  incomplete : Turn
  over_limit : ℕ → Turn
  frame : (body rest : List ℕ) → Turn

unfoldable pub turn : List ℕ → Turn
turn buf =
    let len = from_be_bytes (take 4 buf) in
    let body = drop 4 buf in
    if ltb (length buf) 4
    then incomplete
    else if ltb max_topic_sample len
    then over_limit len
    else if ltb (length body) len
    then incomplete
    else frame (take len body) (drop len body)

abbrev pub failure : TopicError → Pushed
failure e = record {
  samples = [];
  errors = e ∷ [];
  reader = record { buf = []; header_seen = true; failed = true };
}

abbrev pub waits : Bool → List ℕ → Pushed
waits header_seen buf = record {
  samples = [];
  errors = [];
  reader = record { buf = buf; header_seen = header_seen; failed = false };
}

-- A frame's sample or error, before those of the frames behind it.
abbrev pub add : Result TopicError TopicSample → Pushed → Pushed
add (ok s) p = record p { samples = s ∷ p.samples }
add (err e) p = record p { errors = e ∷ p.errors }

-- The loop, on fuel; each turn but the last takes at least a frame's length field.
unfoldable pub frames_fuel : ℕ → List ℕ → Pushed
frames_fuel zero buf = waits true buf
frames_fuel (suc fuel) buf = elim (turn buf) [
  | incomplete ↦ waits true buf
  | over_limit len ↦ failure (too_large len)
  | frame body rest ↦ add (decode body) (frames_fuel fuel rest)
]

unfoldable pub frames : List ℕ → Pushed
unfolding frames_fuel
frames buf = frames_fuel (length buf) buf

abbrev pub has_magic : List ℕ → Bool
has_magic buf = get_or buf 0 0 == topic_stream_magic && get_or buf 1 0 == topic_stream_version

-- `push` with the new bytes behind the old ones.
unfoldable pub settle : Bool → List ℕ → Pushed
settle true buf = frames buf
settle false buf =
    if ltb (length buf) 2
    then waits false buf
    else if has_magic buf
    then frames (drop 2 buf)
    else record (failure bad_stream_header) {
      reader = record { buf = []; header_seen = false; failed = true };
    }

unfoldable pub push : TopicStreamReader → List ℕ → Pushed
push r bytes =
    if r.failed
    then record { samples = []; errors = []; reader = r }
    else settle r.header_seen (r.buf ++ bytes)
