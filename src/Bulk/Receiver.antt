-- ===== src/Bulk/Receiver.antt =====
-- crates/roboprotocol-core/src/bulk.rs: bulk objects put together from their streams' bytes.
pub mod Calls
pub mod Streams
pub mod Intact
pub mod Versions
use robotele.Prelude.{
  ℕ, ◌+◌, Bool, true, false, ◌&&◌, Option, none, some, List, [], ◌∷◌, ◌++◌, ltb, leb, ◌==◌,
  if◌then◌else◌, length, drop, max, not,
}
use robotele.Prelude.Assoc.{Eq, nat_eq, lookup, insert, remove}
use robotele.Prelude.Result.{Result, ok, err}
use robotele.Bulk.Header.{
  BulkHeader, BulkKind, BulkError, short_header, too_long, truncated, bulk_header_len, decode, key,
  key_eq,
}

pub record BulkObject : Type 0 where
  pub header : BulkHeader
  pub bytes : List ℕ

pub record BulkStats : Type 0 where
  pub completed : ℕ
  pub superseded : ℕ
  pub rejected : ℕ

pub record Partial : Type 0 where
  pub header : Option BulkHeader
  pub bytes : List ℕ

-- `dropped` is a set: a map to nothing.
pub record BulkReceiver : Type 0 where
  pub streams : List (ℕ × Partial)
  pub latest : List ((BulkKind × ℕ) × ℕ)
  pub dropped : List (ℕ × Unit {0})
  pub stats : BulkStats

unfoldable pub new : BulkReceiver
new = record {
  streams = [];
  latest = [];
  dropped = [];
  stats = record { completed = 0; superseded = 0; rejected = 0 };
}

abbrev pub completed_one : BulkReceiver → BulkReceiver
completed_one r = record r { stats = record r.stats { completed = r.stats.completed + 1 } }

abbrev pub superseded_one : BulkReceiver → BulkReceiver
superseded_one r = record r { stats = record r.stats { superseded = r.stats.superseded + 1 } }

abbrev pub rejected_one : BulkReceiver → BulkReceiver
rejected_one r = record r { stats = record r.stats { rejected = r.stats.rejected + 1 } }

unfoldable pub drop_stream : ℕ → BulkReceiver → BulkReceiver
drop_stream id r = elim (lookup id r.streams) [
  | none ↦ r
  | some p ↦ record r { streams = remove id r.streams; dropped = insert id tt r.dropped }
]

unfoldable pub reject : ℕ → BulkReceiver → BulkReceiver
reject id r = rejected_one (drop_stream id r)

-- `p.header.is_some_and(|o| o.key() == h.key() && o.version < h.version)`
abbrev pub is_older : BulkHeader → Option BulkHeader → Bool
is_older h none = false
is_older h (some o) = key_eq.beq (key o) (key h) && ltb o.version h.version

unfoldable pub stale : ℕ → BulkHeader → List (ℕ × Partial) → List ℕ
stale id h [] = []
stale id h ((k, p) ∷ m) =
    if not (k == id) && is_older h p.header then k ∷ stale id h m else stale id h m

unfoldable pub drop_all : List ℕ → BulkReceiver → BulkReceiver
drop_all [] r = r
drop_all (id ∷ ids) r = drop_all ids (superseded_one (drop_stream id r))

abbrev pub latest_or : ℕ → Option ℕ → ℕ
latest_or v none = v
latest_or v (some w) = max w v

-- The latest version of the header's key, the header's own included.
unfoldable pub newest : BulkHeader → BulkReceiver → ℕ
newest h r = latest_or h.version (lookup (key h) r.latest)

unfoldable pub on_header : ℕ → BulkHeader → BulkReceiver → BulkReceiver
on_header id h r =
    let noted = record r { latest = insert (key h) (newest h r) r.latest } in
    let rest = drop_all (stale id h noted.streams) noted in
    if ltb h.version (newest h r) then superseded_one (drop_stream id rest) else rest

-- `is_some_and(|&v| v > header.version)`
abbrev pub is_superseded : ℕ → Option ℕ → Bool
is_superseded version none = false
is_superseded version (some v) = ltb version v

-- The end of a stream whose header is known.
unfoldable pub complete :
    BulkHeader → List ℕ → BulkReceiver → Result BulkError (Option BulkObject) × BulkReceiver
complete h bytes r =
    if not (length bytes == h.size)
    then (err (truncated (length bytes) h.size), rejected_one r)
    else if is_superseded h.version (lookup (key h) r.latest)
    then (ok none, superseded_one r)
    else (ok (some (record { header = h; bytes = bytes })), completed_one r)

abbrev pub close :
    ℕ
    → Option BulkHeader
    → List ℕ
    → BulkReceiver
    → Result BulkError (Option BulkObject) × BulkReceiver
close id none bytes r =
    (err short_header, rejected_one (record r { streams = remove id r.streams }))
close id (some h) bytes r = complete h bytes (record r { streams = remove id r.streams })

abbrev pub is_too_long : Option BulkHeader → List ℕ → Bool
is_too_long none bytes = false
is_too_long (some h) bytes = ltb h.size (length bytes)

-- The rest of `on_data`, once a header that is there has been read.
unfoldable pub finish :
    ℕ → Bool → BulkReceiver → Result BulkError (Option BulkObject) × BulkReceiver
finish id fin r = elim (lookup id r.streams) [
  | none ↦ (ok none, r)
  | some p ↦
      if is_too_long p.header p.bytes
      then (err too_long, reject id r)
      else if not fin
      then (ok none, r)
      else close id p.header p.bytes r
]

-- `or_insert_with` and `extend_from_slice`
abbrev pub extend : Option Partial → List ℕ → Partial
extend none chunk = record { header = none; bytes = chunk }
extend (some p) chunk = record p { bytes = p.bytes ++ chunk }

abbrev pub needs_header : Option BulkHeader → List ℕ → Bool
needs_header (some h) bytes = false
needs_header none bytes = leb bulk_header_len (length bytes)

abbrev pub with_header :
    ℕ
    → Bool
    → List ℕ
    → BulkReceiver
    → Result BulkError BulkHeader
    → Result BulkError (Option BulkObject) × BulkReceiver
with_header id fin bytes r (err e) = (err e, reject id r)
with_header id fin bytes r (ok h) = finish id fin (
    on_header id h (record r {
      streams =
          insert id (record { header = some h; bytes = drop bulk_header_len bytes }) r.streams;
    }))

-- A stream's data, for a stream that was not dropped.
unfoldable pub read :
    ℕ → Bool → Partial → BulkReceiver → Result BulkError (Option BulkObject) × BulkReceiver
read id fin p r =
    let there = record r { streams = insert id p r.streams } in
    if needs_header p.header p.bytes
    then with_header id fin p.bytes there (decode p.bytes)
    else finish id fin there

unfoldable pub on_data :
    ℕ → List ℕ → Bool → BulkReceiver → Result BulkError (Option BulkObject) × BulkReceiver
on_data id chunk fin r = elim (lookup id r.dropped) [
  | some u ↦ (ok none, if fin then record r { dropped = remove id r.dropped } else r)
  | none ↦ read id fin (extend (lookup id r.streams) chunk) r
]

unfoldable pub on_reset : ℕ → BulkReceiver → BulkReceiver
on_reset id r =
    let kept = record r { dropped = remove id r.dropped } in
    elim (lookup id r.streams) [
      | none ↦ kept
      | some p ↦ superseded_one (record kept { streams = remove id r.streams })
    ]
