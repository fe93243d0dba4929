-- ===== src/Topic/Outbox/Lanes.antt =====
-- What the lanes' streams carry: the accepted samples, in their order.
pub mod Delivery
use robotele.Prelude.{
  ℕ, ◌+◌, ◌-◌, ◌≤◌, ◌≡◌, refl, ap, sym, ◌∙◌, Bool, true, false, not, Option, none, some, List, [],
  ◌∷◌, ◌++◌, ltb, ◌==◌, if◌then◌else◌, length, take, drop, min, arith, Bool-cases, Option-cases,
  leb, inl, inr, take-append-drop,
}
use robotele.Prelude.Assoc.{list_eq, lookup}
use mathlib.Core.List.{append_assoc, append-nil}
use robotele.Topic.Sample.{TopicSample}
use robotele.Topic.Outbox.{
  ReliableLane, small, large, Lane, TopicOutbox, with_backlog, get_lane, set_lane, lane_of,
  is_dropped, stream_header, frame_bytes, push_frame, note_frame, drop_sample, queue_sample,
  push_reliable, take_bytes, settle_frames, consume_reliable, push_latest, drop_oversize, pop_from,
  pop_datagram,
}

abbrev pub all_frames : List TopicSample → List ℕ
all_frames [] = []
all_frames (s ∷ ss) = frame_bytes s ++ all_frames ss

-- A stream with these samples: nothing, or the header and a frame for each.
abbrev pub stream_of : List TopicSample → List ℕ
stream_of [] = []
stream_of (s ∷ ss) = stream_header false ++ all_frames (s ∷ ss)

abbrev pub has_samples : List TopicSample → Bool
has_samples [] = false
has_samples (s ∷ ss) = true

-- What was taken and what waits are the stream of the accepted samples.
pub record Carries (taken : List ℕ) (accepted : List TopicSample) (lane : Lane) : Type 0 where
  pub bytes : taken ++ lane.buf ≡ stream_of accepted
  pub begun : lane.started ≡ has_samples accepted

all_frames-push :
    (ss : List TopicSample) (s : TopicSample)
    → all_frames (ss ++ s ∷ []) ≡ all_frames ss ++ frame_bytes s
all_frames-push [] s = append-nil (frame_bytes s)
all_frames-push (x ∷ ss) s =
    ap (λ w. frame_bytes x ++ w) (all_frames-push ss s)
    ∙ sym (append_assoc (frame_bytes x) (all_frames ss) (frame_bytes s))

stream_of-push :
    (ss : List TopicSample) (s : TopicSample)
    → stream_of (ss ++ s ∷ []) ≡ stream_of ss ++ (stream_header (has_samples ss) ++ frame_bytes s)
stream_of-push [] s = ap (λ w. stream_header false ++ w) (append-nil (frame_bytes s))
stream_of-push (x ∷ ss) s = ap (λ w. stream_header false ++ w) (all_frames-push (x ∷ ss) s)

has_samples-push : (ss : List TopicSample) (s : TopicSample) → has_samples (ss ++ s ∷ []) ≡ true
has_samples-push [] s = refl
has_samples-push (x ∷ ss) s = refl

push_frame-Carries :
    (taken : List ℕ) (accepted : List TopicSample) (s : TopicSample) (lane : Lane)
    → Carries taken accepted lane
    → Carries taken (accepted ++ s ∷ []) (push_frame s lane)
unfolding push_frame
push_frame-Carries taken accepted s lane c = record {
  bytes =
      sym (append_assoc taken lane.buf (stream_header lane.started ++ frame_bytes s))
      ∙ ap (λ w. w ++ (stream_header lane.started ++ frame_bytes s)) c.bytes
      ∙ ap (λ b. stream_of accepted ++ (stream_header b ++ frame_bytes s)) c.begun
      ∙ sym (stream_of-push accepted s);
  begun = sym (has_samples-push accepted s);
}

-- The bytes that a call takes from a lane.
abbrev pub bytes_taken : ℕ → Lane → List ℕ
bytes_taken n lane = take (min n (length lane.buf)) lane.buf

take_bytes-Carries :
    (taken : List ℕ) (accepted : List TopicSample) (n : ℕ) (lane : Lane)
    → Carries taken accepted lane
    → Carries (taken ++ bytes_taken n lane) accepted (take_bytes n lane)
unfolding take_bytes
take_bytes-Carries taken accepted n lane c =
    let m = min n (length lane.buf) in
    record {
      bytes =
          append_assoc taken (take m lane.buf) (drop m lane.buf)
          ∙ ap (λ w. taken ++ w) (take-append-drop m lane.buf)
          ∙ c.bytes;
      begun = c.begun;
    }

-- An outbox, and for each lane what was taken from it and what it accepted.
pub record Session : Type 0 where
  pub outbox : TopicOutbox
  pub small_taken : List ℕ
  pub large_taken : List ℕ
  pub small_accepted : List TopicSample
  pub large_accepted : List TopicSample

abbrev pub start : ℕ → Session
start backlog = record {
  outbox = with_backlog backlog;
  small_taken = [];
  large_taken = [];
  small_accepted = [];
  large_accepted = [];
}

abbrev accept_on : ReliableLane → TopicSample → Session → Session
accept_on small s x = record x { small_accepted = x.small_accepted ++ s ∷ [] }
accept_on large s x = record x { large_accepted = x.large_accepted ++ s ∷ [] }

abbrev take_on : ReliableLane → List ℕ → Session → Session
take_on small bytes x = record x { small_taken = x.small_taken ++ bytes }
take_on large bytes x = record x { large_taken = x.large_taken ++ bytes }

pub data Call : Type 0 where
  push_latest_call push_reliable_call : TopicSample → Call
  pop_call : (max_len : ℕ) → Call
  consume_call : (lane : ReliableLane) (n : ℕ) → Call

abbrev noted : Call → Session → Session
noted (push_latest_call s) x = x
noted (push_reliable_call s) x =
    if is_dropped s x.outbox then x else accept_on (lane_of s x.outbox) s x
noted (pop_call max_len) x = x
noted (consume_call lane n) x = take_on lane (bytes_taken n (get_lane lane x.outbox)) x

abbrev run : Call → TopicOutbox → TopicOutbox
run (push_latest_call s) o = push_latest s o
run (push_reliable_call s) o = push_reliable s o
run (pop_call max_len) o = (pop_datagram max_len o).1
run (consume_call lane n) o = consume_reliable lane n o

unfoldable pub step : Call → Session → Session
step c x = record (noted c x) { outbox = run c x.outbox }

-- The newest call first.
unfoldable pub replay : ℕ → List Call → Session
unfolding step
replay backlog [] = start backlog
replay backlog (c ∷ cs) = step c (replay backlog cs)

-- Each lane carries what it accepted.
pub record BothCarry (x : Session) : Type 0 where
  pub on_small : Carries x.small_taken x.small_accepted x.outbox.small_lane
  pub on_large : Carries x.large_taken x.large_accepted x.outbox.large_lane

-- The lanes of two outboxes are the same.
abbrev SameLanes : TopicOutbox → TopicOutbox → Type 0
SameLanes o p = (p.small_lane ≡ o.small_lane) × (p.large_lane ≡ o.large_lane)

push_latest-SameLanes : (s : TopicSample) (o : TopicOutbox) → SameLanes o (push_latest s o)
unfolding push_latest
push_latest-SameLanes s o = elim (Option-cases (lookup s.key o.latest)) [
  | inl e ↦ rw (e, push_latest) (refl, refl)
  | inr (d, e) ↦ rw (e, push_latest) (refl, refl)
]

pop_from-SameLanes :
    (max_len : ℕ) (order : List (List ℕ)) (o : TopicOutbox)
    → SameLanes o (pop_from max_len order o).1
unfolding pop_from
pop_from-SameLanes max_len [] o = (refl, refl)
pop_from-SameLanes max_len (key ∷ order) o = elim (Option-cases (lookup key o.latest)) [
  | inl e ↦ rw (e, pop_from) (refl, refl)
  | inr (d, e) ↦ elim (Bool-cases (leb (length d) max_len)) [
    | inl q ↦ rw (e, q, pop_from) (refl, refl)
    | inr q ↦ rw (e, q, pop_from) (pop_from-SameLanes max_len order (drop_oversize key o))
  ]
]

same-BothCarry :
    (x : Session) (o : TopicOutbox)
    → SameLanes x.outbox o
    → BothCarry x
    → BothCarry (record x { outbox = o })
same-BothCarry x o (on_small, on_large) b = record {
  on_small = rw on_small b.on_small;
  on_large = rw on_large b.on_large;
}

queue_sample-BothCarry :
    (lane : ReliableLane) (s : TopicSample) (x : Session)
    → BothCarry x
    → BothCarry (record (accept_on lane s x) { outbox = queue_sample lane s x.outbox })
unfolding note_frame
queue_sample-BothCarry small s x b = record {
  on_small = push_frame-Carries x.small_taken x.small_accepted s x.outbox.small_lane b.on_small;
  on_large = b.on_large;
}
queue_sample-BothCarry large s x b =
    let c = push_frame-Carries x.large_taken x.large_accepted s x.outbox.large_lane b.on_large in
    record { on_small = b.on_small; on_large = record { bytes = c.bytes; begun = c.begun } }

consume-BothCarry :
    (lane : ReliableLane) (n : ℕ) (x : Session)
    → BothCarry x
    → BothCarry (step (consume_call lane n) x)
unfolding step consume_reliable
consume-BothCarry small n x b =
    let c = take_bytes-Carries x.small_taken x.small_accepted n x.outbox.small_lane b.on_small in
    record { on_small = record { bytes = c.bytes; begun = c.begun }; on_large = b.on_large }
consume-BothCarry large n x b =
    let c = take_bytes-Carries x.large_taken x.large_accepted n x.outbox.large_lane b.on_large in
    record { on_small = b.on_small; on_large = record { bytes = c.bytes; begun = c.begun } }

step-BothCarry : (c : Call) (x : Session) → BothCarry x → BothCarry (step c x)
unfolding step push_reliable pop_datagram
step-BothCarry (push_latest_call s) x b =
    same-BothCarry x (push_latest s x.outbox) (push_latest-SameLanes s x.outbox) b
step-BothCarry (push_reliable_call s) x b = elim (Bool-cases (is_dropped s x.outbox)) [
  | inl q ↦ rw q (same-BothCarry x (drop_sample x.outbox) (refl, refl) b)
  | inr q ↦ rw q (queue_sample-BothCarry (lane_of s x.outbox) s x b)
]
step-BothCarry (pop_call max_len) x b =
    same-BothCarry x _ (pop_from-SameLanes max_len x.outbox.order x.outbox) b
step-BothCarry (consume_call lane n) x b = consume-BothCarry lane n x b

pub replay-BothCarry : (backlog : ℕ) (cs : List Call) → BothCarry (replay backlog cs)
unfolding replay with_backlog
replay-BothCarry backlog [] = record {
  on_small = record { bytes = refl; begun = refl };
  on_large = record { bytes = refl; begun = refl };
}
replay-BothCarry backlog (c ∷ cs) =
    step-BothCarry c (replay backlog cs) (replay-BothCarry backlog cs)
