-- ===== src/Tests/Topic.antt =====
-- The theorems on forwarded topics at concrete inputs.
use robotele.Prelude.{ℕ, ◌≡◌, refl, List, [], ◌∷◌, ◌++◌, arith}
use robotele.Topic.Sample.{TopicSample, check_key, is_concrete, utf8_from}
use robotele.Prelude.Assoc.{lookup}
use robotele.Topic.Outbox.{small, is_dropped, lane_of, with_backlog}
use robotele.Topic.Outbox.Latest.{LatestCall, pushed, popped}
use robotele.Topic.Outbox.Lanes.{Call, push_reliable_call, consume_call, replay, step}
use robotele.Topic.Outbox.Lanes.Delivery.{AllSendable, InOrder, replay-InOrder}
use robotele.Topic.Reader.{new, push}
use robotele.Topic.Reader.Checked.{AllRepublishable, push-AllRepublishable}
use robotele.Topic.Reader.Pieces.{then_push, push-append}

-- Key "a/b".
abbrev goal_sample : TopicSample
goal_sample = record { key = 97 ∷ 47 ∷ 98 ∷ []; attachment = 1 ∷ []; payload = 2 ∷ 3 ∷ [] }

-- The header and one sample, which the first read cuts in its key.
abbrev first_read : List ℕ
first_read = 0x54 ∷ 1 ∷ 0 ∷ 0 ∷ 0 ∷ 12 ∷ 0 ∷ 3 ∷ 97 ∷ []

abbrev second_read : List ℕ
second_read = 47 ∷ 98 ∷ 0 ∷ 0 ∷ 0 ∷ 1 ∷ 1 ∷ 2 ∷ 3 ∷ []

push-append_example :
    push new (first_read ++ second_read) ≡ then_push (push new first_read) second_read
push-append_example = push-append new first_read second_read

push-AllRepublishable_example : AllRepublishable (push new (first_read ++ second_read)).samples
push-AllRepublishable_example = push-AllRepublishable new (first_read ++ second_read)

-- The sample is pushed, and nine bytes are taken.
abbrev calls : List Call
calls = consume_call small 9 ∷ push_reliable_call goal_sample ∷ []

calls-AllSendable : AllSendable (replay 1000 calls).small_accepted
unfolding replay step is_dropped lane_of with_backlog lookup check_key is_concrete utf8_from
calls-AllSendable = (record { text = refl; checked = refl; fits = omega arith }, tt)

replay-InOrder_example :
    InOrder
      (replay 1000 calls).small_taken
      (replay 1000 calls).outbox.small_lane.buf
      (replay 1000 calls).small_accepted
    × InOrder
        (replay 1000 calls).large_taken
        (replay 1000 calls).outbox.large_lane.buf
        (replay 1000 calls).large_accepted
unfolding replay step is_dropped lane_of with_backlog lookup
replay-InOrder_example = replay-InOrder 1000 calls calls-AllSendable tt

abbrev latest_calls : List LatestCall
latest_calls = pushed goal_sample ∷ popped 3 ∷ pushed goal_sample ∷ pushed goal_sample ∷ []
