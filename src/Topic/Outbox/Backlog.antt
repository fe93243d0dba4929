-- ===== src/Topic/Outbox/Backlog.antt =====
-- How much a lane keeps waiting.
use robotele.Prelude.{
  ℕ, ◌+◌, ◌%◌, ◌^◌, ◌≤◌, Bool, true, false, ◌++◌, length, min, arith, Bool-cases, inl, inr,
  length-append, length-drop, ltb_false→le,
}
use robotele.Prelude.Bytes.{to_be_bytes, length-to_be_bytes}
use robotele.Topic.Sample.{TopicSample, encode, encoded_len}
use robotele.Topic.Outbox.{
  ReliableLane, small, large, Lane, TopicOutbox, get_lane, lane_of, is_dropped, stream_header,
  frame_bytes, push_frame, note_frame, drop_sample, queue_sample, push_reliable, take_bytes,
  consume_reliable,
}
use robotele.Topic.Outbox.Lanes.Delivery.{length-encode}

-- Two bytes over the backlog, for the stream's header.
abbrev pub Within : ReliableLane → TopicOutbox → Type 0
Within lane o = length (get_lane lane o).buf ≤ o.reliable_backlog + 2

dropped-Within :
    (lane : ReliableLane) (o : TopicOutbox) → Within lane o → Within lane (drop_sample o)
dropped-Within small o h = h
dropped-Within large o h = h

length-stream_header : (started : Bool) → length (stream_header started) ≤ 2
length-stream_header true = omega arith
length-stream_header false = omega arith

length-push_frame :
    (s : TopicSample) (lane : Lane)
    → length (push_frame s lane).buf ≤ length lane.buf + 2 + 4 + encoded_len s
unfolding push_frame
length-push_frame s lane = omega (
  arith,
  length-append lane.buf (stream_header lane.started ++ frame_bytes s),
  length-append (stream_header lane.started) (frame_bytes s),
  length-append (to_be_bytes 4 (encoded_len s % 2 ^ 32)) (encode s),
  length-to_be_bytes 4 (encoded_len s % 2 ^ 32),
  length-encode s,
  length-stream_header lane.started,
)

queue_sample-Within :
    (target lane : ReliableLane) (s : TopicSample) (o : TopicOutbox)
    → length (get_lane target o).buf + 4 + encoded_len s ≤ o.reliable_backlog
    → Within lane o
    → Within lane (queue_sample target s o)
unfolding note_frame
queue_sample-Within small small s o k h = omega (arith, length-push_frame s o.small_lane, k)
queue_sample-Within small large s o k h = h
queue_sample-Within large small s o k h = h
queue_sample-Within large large s o k h = omega (arith, length-push_frame s o.large_lane, k)

push_reliable-Within :
    (s : TopicSample) (lane : ReliableLane) (o : TopicOutbox)
    → Within lane o
    → Within lane (push_reliable s o)
unfolding push_reliable is_dropped
push_reliable-Within s lane o h = elim (Bool-cases (is_dropped s o)) [
  | inl q ↦ rw (q, push_reliable) (dropped-Within lane o h)
  | inr q ↦
      rw (q, push_reliable)
        (queue_sample-Within (lane_of s o) lane s o
          (ground (
            arith,
            q,
            ltb_false→le o.reliable_backlog
                (length (get_lane (lane_of s o) o).buf + 4 + encoded_len s),
          ))
          h)
]

consume_reliable-Within :
    (target lane : ReliableLane) (n : ℕ) (o : TopicOutbox)
    → Within lane o
    → Within lane (consume_reliable target n o)
unfolding consume_reliable take_bytes
consume_reliable-Within small small n o h =
    omega (arith, length-drop (min n (length o.small_lane.buf)) o.small_lane.buf, h)
consume_reliable-Within small large n o h = h
consume_reliable-Within large small n o h = h
consume_reliable-Within large large n o h =
    omega (arith, length-drop (min n (length o.large_lane.buf)) o.large_lane.buf, h)

-- A lane that holds at most the backlog, and two bytes for its stream's header, still does so after
-- a push of any sample and after a take of any number of bytes from either lane.
pub steps-Within :
    (lane : ReliableLane) (o : TopicOutbox)
    → Within lane o
    → ((s : TopicSample) → Within lane (push_reliable s o))
      × ((target : ReliableLane) (n : ℕ) → Within lane (consume_reliable target n o))
steps-Within lane o h =
    (λ s. push_reliable-Within s lane o h, λ target n. consume_reliable-Within target lane n o h)
