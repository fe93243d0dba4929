-- ===== src/Topic/Outbox/Lanes/Delivery.antt =====
-- From one side's outbox to the other side's reader.
use robotele.Prelude.{
  ℕ, ◌%◌, ◌^◌, ◌≤◌, ◌≡◌, refl, ap, sym, ◌∙◌, true, false, List, [], ◌∷◌, ◌++◌, ltb, length, arith,
  length-append, take-append, drop-append,
}
use robotele.Prelude.Bytes.{to_be_bytes, from_be_bytes-to_be_bytes, length-to_be_bytes}
use robotele.Prelude.Result.{ok}
use native.Mathlib.Nat.{mod-eq_of_lt}
use robotele.Topic.Sample.{TopicSample, encode, encoded_len, is_utf8, check_key, max_topic_sample}
use robotele.Topic.Sample.Wire.{decode-encode_sample}
use robotele.Topic.Reader.{Pushed, turn, frame, frames, frames_fuel, waits, add, settle, push}
use robotele.Topic.Reader.{new}
use robotele.Topic.Reader.Pieces.{after, frames-after, push-append}
use robotele.Topic.Outbox.{frame_bytes}
use robotele.Topic.Outbox.Lanes.{all_frames, stream_of, Call, replay, replay-BothCarry}

-- A sample within the limit whose key is text and passes the check.
pub record Sendable (s : TopicSample) : Type 0 where
  pub text : is_utf8 s.key ≡ true
  pub checked : check_key s.key ≡ ok tt
  pub fits : encoded_len s ≤ max_topic_sample

abbrev pub AllSendable : List TopicSample → Type 0
AllSendable [] = Unit {0}
AllSendable (s ∷ ss) = Sendable s × AllSendable ss

pub length-encode : (s : TopicSample) → length (encode s) ≡ encoded_len s
unfolding encode
length-encode s = omega (
  arith,
  length-append (to_be_bytes 2 (length s.key % 2 ^ 16))
      (s.key ++ (to_be_bytes 4 (length s.attachment % 2 ^ 32) ++ (s.attachment ++ s.payload))),
  length-append s.key (to_be_bytes 4 (length s.attachment % 2 ^ 32) ++ (s.attachment ++ s.payload)),
  length-append (to_be_bytes 4 (length s.attachment % 2 ^ 32)) (s.attachment ++ s.payload),
  length-append s.attachment s.payload,
  length-to_be_bytes 2 (length s.key % 2 ^ 16),
  length-to_be_bytes 4 (length s.attachment % 2 ^ 32),
)

turn-frame :
    (body rest : List ℕ)
    → length body ≤ max_topic_sample
    → turn ((to_be_bytes 4 (length body % 2 ^ 32) ++ body) ++ rest) ≡ frame body rest
unfolding turn to_be_bytes
turn-frame body rest h =
    rw
      (
        from_be_bytes-to_be_bytes 4 (length body % 2 ^ 32) (omega arith),
        mod-eq_of_lt {n = length body} {m = 2 ^ 32} (omega arith),
        take-append body rest,
        drop-append body rest,
        length-append body rest,
      )
      (ground arith)

turn-frame_bytes :
    (s : TopicSample) (rest : List ℕ)
    → encoded_len s ≤ max_topic_sample
    → turn (frame_bytes s ++ rest) ≡ frame (encode s) rest
turn-frame_bytes s rest h =
    rw (sym (length-encode s)) (turn-frame (encode s) rest (omega (arith, length-encode s)))

frames-all_frames :
    (ss : List TopicSample)
    → AllSendable ss
    → frames (all_frames ss) ≡ record (waits true []) { samples = ss }
unfolding after frames frames_fuel
frames-all_frames [] h = refl
frames-all_frames (s ∷ ss) h =
    let good = h.0 in
    frames-after (frame_bytes s ++ all_frames ss)
    ∙ ap (after (frame_bytes s ++ all_frames ss)) (turn-frame_bytes s (all_frames ss) good.fits)
    ∙ ap (λ d. add d (frames (all_frames ss)))
        (decode-encode_sample s good.text good.checked (omega (arith, good.fits)) good.fits)
    ∙ ap (add (ok s)) (frames-all_frames ss h.1)

-- What a new reader makes of a whole stream.
read_stream :
    (ss : List TopicSample)
    → AllSendable ss
    → ((push new (stream_of ss)).samples ≡ ss) × ((push new (stream_of ss)).errors ≡ [])
unfolding push settle
read_stream [] h = (refl, refl)
read_stream (s ∷ ss) h =
    let long : ltb (length (stream_of (s ∷ ss))) 2 ≡ false = ground arith in
    let read = frames-all_frames (s ∷ ss) h in
    rw long (ap (λ (p : Pushed). p.samples) read, ap (λ (p : Pushed). p.errors) read)

-- What the bytes that were taken give, and then those that wait.
abbrev pub InOrder : List ℕ → List ℕ → List TopicSample → Type 0
InOrder taken waiting accepted =
    let first = push new taken in
    let second = push first.reader waiting in
    (first.samples ++ second.samples ≡ accepted) × (first.errors ++ second.errors ≡ [])

carried-InOrder :
    (taken waiting : List ℕ) (accepted : List TopicSample)
    → taken ++ waiting ≡ stream_of accepted
    → AllSendable accepted
    → InOrder taken waiting accepted
carried-InOrder taken waiting accepted e h =
    let (samples, errors) = read_stream accepted h in
    let whole = sym (push-append new taken waiting) ∙ ap (push new) e in
    (ap (λ (p : Pushed). p.samples) whole ∙ samples, ap (λ (p : Pushed). p.errors) whole ∙ errors)

-- After any calls on an outbox, if the samples that each lane accepted can be sent: the bytes taken
-- from a lane, read by a new reader on the other side however they are cut, give the first of the
-- samples that the lane accepted, whole and in their order, and what still waits gives exactly the
-- others; no sample is lost, repeated or refused.
pub replay-InOrder :
    (backlog : ℕ) (calls : List Call)
    → let x = replay backlog calls in
      AllSendable x.small_accepted
      → AllSendable x.large_accepted
      → InOrder x.small_taken x.outbox.small_lane.buf x.small_accepted
        × InOrder x.large_taken x.outbox.large_lane.buf x.large_accepted
replay-InOrder backlog calls on_small on_large =
    let x = replay backlog calls in
    let b = replay-BothCarry backlog calls in
    (
      carried-InOrder x.small_taken x.outbox.small_lane.buf x.small_accepted b.on_small.bytes
          on_small,
      carried-InOrder x.large_taken x.outbox.large_lane.buf x.large_accepted b.on_large.bytes
          on_large,
    )
