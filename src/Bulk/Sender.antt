-- ===== src/Bulk/Sender.antt =====
-- crates/robot-edge/src/bulk_sender.rs: bulk objects, each on a stream of its own.
pub mod Finished
pub mod Distinct
pub mod Pumped
pub mod Newest
pub mod Loop
pub mod Enough
pub mod Within
use robotele.Prelude.{
  ℕ, zero, suc, ◌+◌, ◌-◌, ◌≤◌, ◌≡◌, ◌↔◌, Bool, true, false, ◌&&◌, ◌||◌, Option, none, some, List,
  [], ◌∷◌, ◌++◌, arith, ltb, leb, ◌==◌, ==_iff, if◌then◌else◌, length, min,
}
use robotele.Prelude.Bytes.{slice}
use robotele.Prelude.Assoc.{Eq, lookup, remove}
use robotele.Prelude.Ordered.{Below, insert}
use robotele.Bulk.Header.{BulkHeader, encode, to_u8}

-- `Err(Done)`, `Err(StreamLimit)` and any other error of `stream_send`, or the bytes it accepted.
pub data Answer : Type 0 where
  accepted : ℕ → Answer
  done stream_limit failed : Answer

-- The QUIC connection, as an interface.
pub record Connection : Type 1 where
  pub Conn : Type 0
  pub stream_send : Conn → ℕ → List ℕ → Bool → Conn × Answer
  pub stream_priority : Conn → ℕ → Conn
  -- It accepts no more than it is given.
  pub accepts_at_most :
      (c : Conn) (id : ℕ) (bytes : List ℕ) (fin : Bool) (n : ℕ)
      → (stream_send c id bytes fin).1 ≡ accepted n
      → n ≤ length bytes

abbrev pub chunk : ℕ
chunk = 16384

abbrev pub usize_max : ℕ
usize_max = 18446744073709551615

abbrev pub beq_pair : ℕ × ℕ → ℕ × ℕ → Bool
beq_pair (a, b) (c, d) = a == c && b == d

pub beq_pair_iff : (x y : ℕ × ℕ) → (beq_pair x y ≡ true) ↔ (x ≡ y)
beq_pair_iff (a, b) (c, d) =
    (λ h. ground (arith, ==_iff a c, ==_iff b d), λ h. ground (arith, ==_iff a c, ==_iff b d))

instance abbrev pub pair_eq : Eq (ℕ × ℕ)
pair_eq = record { beq = beq_pair; beq_iff = beq_pair_iff }

instance abbrev pub pair_below : Below (ℕ × ℕ)
pair_below = record { below = λ x y. ltb x.0 y.0 || x.0 == y.0 && ltb x.1 y.1 }

pub record BulkSendStats : Type 0 where
  pub published : ℕ
  pub completed : ℕ
  pub superseded : ℕ

pub record Outgoing : Type 0 where
  pub stream_id : ℕ
  pub bytes : List ℕ
  pub offset : ℕ

pub record BulkSender : Type 0 where
  pub next_stream_id : ℕ
  pub active : List ((ℕ × ℕ) × Outgoing)
  pub waiting : List ((ℕ × ℕ) × List ℕ)
  pub stats : BulkSendStats

unfoldable pub new : BulkSender
new = record {
  next_stream_id = 3;
  active = [];
  waiting = [];
  stats = record { published = 0; completed = 0; superseded = 0 };
}

abbrev sum_active : List ((ℕ × ℕ) × Outgoing) → ℕ
sum_active [] = 0
sum_active ((k, o) ∷ m) = length o.bytes - o.offset + sum_active m

abbrev sum_waiting : List ((ℕ × ℕ) × List ℕ) → ℕ
sum_waiting [] = 0
sum_waiting ((k, bytes) ∷ m) = length bytes + sum_waiting m

unfoldable pub pending_bytes : BulkSender → ℕ
pending_bytes s = sum_active s.active + sum_waiting s.waiting

unfoldable pub allocate_stream : BulkSender → BulkSender × ℕ
allocate_stream s = (record s { next_stream_id = s.next_stream_id + 4 }, s.next_stream_id)

abbrev pub superseded_if : Option (List ℕ) → BulkSendStats → BulkSendStats
superseded_if none stats = stats
superseded_if (some old) stats = record stats { superseded = stats.superseded + 1 }

abbrev pub header_key : BulkHeader → ℕ × ℕ
header_key h = (to_u8 h.kind, h.source_id)

-- A call accepts at least one byte or is the last, so no object needs more.
abbrev pub enough : Outgoing → ℕ
enough o = length o.bytes - o.offset + 1

abbrev pub completed_if : Option Outgoing → BulkSendStats → BulkSendStats
completed_if none stats = stats
completed_if (some o) stats =
    if o.offset == length o.bytes then record stats { completed = stats.completed + 1 } else stats

abbrev pub budget_or_max : Option ℕ → ℕ
budget_or_max none = usize_max
budget_or_max (some b) = b

-- The end of the chunk that is sent next.
abbrev pub chunk_end : Outgoing → ℕ → ℕ
chunk_end o left = min (o.offset + min chunk left) (length o.bytes)

abbrev pub ends : Outgoing → ℕ → Bool
ends o left = chunk_end o left == length o.bytes

module _ (connection : Connection) where
  open connection use {Conn, stream_send, stream_priority}

  unfoldable pub start : Conn → ℕ × ℕ → List ℕ → BulkSender → Conn × BulkSender
  unfolding allocate_stream
  start c key bytes s =
      let (s', stream_id) = allocate_stream s in
      (
        stream_priority c stream_id,
        record s' {
          active =
              insert key (record { stream_id = stream_id; bytes = bytes; offset = 0 }) s'.active;
        },
      )

  unfoldable pub publish : Conn → BulkHeader → List ℕ → BulkSender → Conn × BulkSender
  unfolding start encode
  publish c h payload s =
      let key = header_key h in
      let bytes = encode h ++ payload in
      let counted = record s { stats = record s.stats { published = s.stats.published + 1 } } in
      elim (lookup key s.active) [
        | some o ↦ (
          c,
          record counted {
            waiting = insert key bytes counted.waiting;
            stats = superseded_if (lookup key counted.waiting) counted.stats;
          },
        )
        | none ↦ start c key bytes counted
      ]

  -- A pump on its way: the budget that is left, the bytes written and the keys that are finished.
  pub record Pump : Type 0 where
    pub conn : Conn
    pub left : ℕ
    pub written : ℕ
    pub finished : List (ℕ × ℕ)

  -- `Ok(n)` for the bytes from `start` to `end`.
  abbrev pub took : ℕ → Outgoing → Pump → Pump × Outgoing
  took n o p =
      let c = if o.offset == 0 && ltb 0 n then stream_priority p.conn o.stream_id else p.conn in
      (
        record p { conn = c; left = p.left - n; written = p.written + n },
        record o { offset = o.offset + n },
      )

  abbrev pub finish : ℕ × ℕ → Pump × Outgoing → Pump × Outgoing
  finish key (p, o) = (record p { finished = p.finished ++ key ∷ [] }, o)

  -- What an answer does: `again` is the next turn of the loop.
  abbrev pub answered :
      ℕ × ℕ → Outgoing → Pump → Answer → (Pump × Outgoing → Pump × Outgoing) → Pump × Outgoing
  answered key o sent done again = (sent, o)
  answered key o sent stream_limit again = (sent, o)
  answered key o sent failed again = finish key (sent, o)
  answered key o sent (accepted n) again =
      if ends o sent.left && o.offset + n == length o.bytes
      then finish key (took n o sent)
      else if ltb n (chunk_end o sent.left - o.offset)
      then took n o sent
      else again (took n o sent)

  -- `stream_send` of the next chunk.
  abbrev pub send_chunk : Outgoing → Pump → Conn × Answer
  send_chunk o p =
      stream_send p.conn o.stream_id (slice o.offset (chunk_end o p.left) o.bytes) (ends o p.left)

  -- The loop over one object.
  unfoldable pub send_loop : ℕ → ℕ × ℕ → Pump × Outgoing → Pump × Outgoing
  send_loop zero key (p, o) = (p, o)
  send_loop (suc fuel) key (p, o) =
      if p.left == 0
      then (p, o)
      else answered key o (record p { conn = (send_chunk o p).0 }) (send_chunk o p).1
          (send_loop fuel key)

  -- The loop over the objects, in the order of their keys.
  unfoldable pub send_all : List ((ℕ × ℕ) × Outgoing) → Pump → Pump × List ((ℕ × ℕ) × Outgoing)
  unfolding send_loop
  send_all [] p = (p, [])
  send_all ((key, o) ∷ m) p =
      let (p', o') = send_loop (enough o) key (p, o) in
      let (last, rest) = send_all m p' in
      if p'.left == 0 then (p', (key, o') ∷ m) else (last, (key, o') ∷ rest)

  -- A finished key: its object goes, and the version that waits starts.
  unfoldable pub settle : Conn → ℕ × ℕ → BulkSender → Conn × BulkSender
  unfolding start
  settle c key s =
      let gone = record s {
        active = remove key s.active;
        stats = completed_if (lookup key s.active) s.stats;
      } in
      elim (lookup key gone.waiting) [
        | none ↦ (c, gone)
        | some next ↦ start c key next (record gone { waiting = remove key gone.waiting })
      ]

  unfoldable pub settle_all : List (ℕ × ℕ) → Conn × BulkSender → Conn × BulkSender
  unfolding settle
  settle_all [] cs = cs
  settle_all (key ∷ keys) (c, s) = settle_all keys (settle c key s)

  abbrev pub begin : Conn → Option ℕ → Pump
  begin c budget = record { conn = c; left = budget_or_max budget; written = 0; finished = [] }

  unfoldable pub pump : Conn → Option ℕ → BulkSender → (Conn × BulkSender) × ℕ
  unfolding send_all settle_all
  pump c budget s =
      let (p, active) = send_all s.active (begin c budget) in
      (settle_all p.finished (p.conn, record s { active = active }), p.written)
