-- ===== src/Tests/Sending.antt =====
-- The theorems on the sender of bulk objects at concrete inputs.
use robotele.Prelude.{ℕ, ◌+◌, ◌≤◌, ◌≡◌, some, List, [], ◌∷◌, arith, length, min}
use robotele.Bulk.Header.{BulkHeader, blob}
use robotele.Bulk.Sender.{
  Connection, accepted, Outgoing, begin, budget_or_max, enough, pump, send_loop,
}
use robotele.Bulk.Sender.Newest.{Call, publish_call, pump_call, replay}
use robotele.Bulk.Sender.Within.{pump-within}
use robotele.Bulk.Sender.Enough.{send_loop-enough}

at_most_two : (m n : ℕ) → accepted (min 2 m) ≡ accepted n → n ≤ m
at_most_two m n e = ground (arith, e)

-- It accepts two bytes at a time.
abbrev slow : Connection
slow = record {
  Conn = Unit {0};
  stream_send = λ c id bytes fin. (c, accepted (min 2 (length bytes)));
  stream_priority = λ c id. c;
  accepts_at_most = λ c id bytes fin n e. at_most_two (length bytes) n e;
}

abbrev map_version : ℕ → BulkHeader
map_version v = record {
  kind = blob;
  source_id = 2;
  encoding = 0;
  version = v;
  size = 1;
  capture_time_us = 1000;
}

-- The third version replaces the second behind the first.
abbrev three_versions : List (Call slow)
three_versions =
    pump_call (some 10)
    ∷ publish_call (map_version 3) (9 ∷ [])
    ∷ publish_call (map_version 2) (8 ∷ [])
    ∷ pump_call (some 10)
    ∷ publish_call (map_version 1) (7 ∷ [])
    ∷ []

pump-within_example :
    (pump slow tt (some 5) (replay slow tt three_versions).1).1 ≤ budget_or_max (some 5)
pump-within_example = pump-within slow tt (some 5) (replay slow tt three_versions).1

abbrev half_sent : Outgoing
half_sent = record { stream_id = 3; bytes = 1 ∷ 2 ∷ 3 ∷ 4 ∷ []; offset = 2 }

send_loop-enough_example :
    send_loop slow (enough half_sent + 5) (255, 2) (begin slow tt (some 9), half_sent)
    ≡ send_loop slow (enough half_sent) (255, 2) (begin slow tt (some 9), half_sent)
send_loop-enough_example =
    send_loop-enough slow 5 (255, 2) (begin slow tt (some 9)) half_sent (omega arith)
