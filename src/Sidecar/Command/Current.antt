-- ===== src/Sidecar/Command/Current.antt =====
-- crates/robot-edge/src/zenoh_bridge.rs: what a monitor of the commands has been told.
use robotele.Prelude.{
  ℕ, ◌-◌, ◌<◌, ◌≡◌, refl, sym, ap, ◌∙◌, inl, inr, Bool, true, false, ◌&&◌, Option, none, some, List,
  [], ◌∷◌, arith, ltb, ltb→lt, Bool-cases, Option-cases,
}
use robotele.Prelude.Assoc.{beq_list, beq_list_iff}
use robotele.Safety.Arbitration.{ControlSource}
use robotele.Sidecar.Command.{
  CommandSink, TeleopCommand, encode_command, new, try_send, is_repeat, publish_at, receive,
  command_repeat,
}

-- What happens to a sink.
pub data Call : Type 0 where
  published : (now : ℕ) → ControlSource → TeleopCommand → Call
  received : Call

abbrev pub and_taken : CommandSink × Option (List ℕ) → List (List ℕ) → CommandSink × List (List ℕ)
and_taken (s, none) taken = (s, taken)
and_taken (s, some payload) taken = (s, payload ∷ taken)

-- The sink after the calls, the newest first, and the samples that were taken from it, in order.
unfoldable pub replay : List Call → CommandSink × List (List ℕ)
unfolding new publish_at receive
replay [] = (new, [])
replay (published now source cmd ∷ calls) =
    (publish_at (replay calls).0 now source cmd, (replay calls).1)
replay (received ∷ calls) = and_taken (receive (replay calls).0) (replay calls).1

abbrev first_of : List (List ℕ) → Option (List ℕ)
first_of [] = none
first_of (payload ∷ rest) = some payload

abbrev waiting_or : Option (List ℕ) → List (List ℕ) → Option (List ℕ)
waiting_or none taken = first_of taken
waiting_or (some waiting) taken = some waiting

-- The newest sample that was sent: it waits, or it was taken last.
abbrev pub newest_sent : CommandSink × List (List ℕ) → Option (List ℕ)
newest_sent r = waiting_or r.0.queued r.1

abbrev payload_of : Option (List ℕ × ℕ) → Option (List ℕ)
payload_of none = none
payload_of (some (payload, at)) = some payload

try_send-newest :
    (s : CommandSink) (taken : List (List ℕ)) (payload : List ℕ) (now : ℕ)
    → payload_of s.last ≡ newest_sent (s, taken)
    → payload_of (try_send s payload now).last ≡ newest_sent (try_send s payload now, taken)
unfolding try_send
try_send-newest s taken payload now h = elim (Option-cases s.queued) [
  | inl e ↦ rw (try_send, e)
  | inr (w, e) ↦ rw (try_send, e) h
]

publish_at-newest :
    (s : CommandSink) (taken : List (List ℕ)) (now : ℕ) (source : ControlSource)
    (cmd : TeleopCommand)
    → payload_of s.last ≡ newest_sent (s, taken)
    → payload_of (publish_at s now source cmd).last
      ≡ newest_sent (publish_at s now source cmd, taken)
unfolding publish_at
publish_at-newest s taken now source cmd h =
    elim (Bool-cases (is_repeat s.last (encode_command source cmd) now)) [
      | inl e ↦ rw e h
      | inr e ↦ rw e (try_send-newest s taken (encode_command source cmd) now h)
    ]

receive-newest :
    (queued : Option (List ℕ)) (last : Option (List ℕ × ℕ)) (taken : List (List ℕ))
    → payload_of last ≡ waiting_or queued taken
    → let r = and_taken (receive (record { queued = queued; last = last })) taken in
      payload_of r.0.last ≡ newest_sent r
unfolding receive
receive-newest none last taken h = h
receive-newest (some w) last taken h = h

-- What the sink remembers as sent is what was sent last: a dropped sample is not recorded.
last-newest_sent :
    (calls : List Call) → payload_of (replay calls).0.last ≡ newest_sent (replay calls)
unfolding replay new
last-newest_sent [] = refl
last-newest_sent (published now source cmd ∷ calls) =
    publish_at-newest (replay calls).0 (replay calls).1 now source cmd (last-newest_sent calls)
last-newest_sent (received ∷ calls) =
    receive-newest (replay calls).0.queued (replay calls).0.last (replay calls).1
      (last-newest_sent calls)

-- The payload was remembered as sent less than the repeat interval before.
abbrev pub IsCurrent : List ℕ → ℕ → Option (List ℕ × ℕ) → Type 0
IsCurrent payload now none = ⊥
IsCurrent payload now (some (last, at)) = (last ≡ payload) × (now - at < command_repeat)

repeat-IsCurrent :
    (last : Option (List ℕ × ℕ)) (payload : List ℕ) (now : ℕ)
    → is_repeat last payload now ≡ true
    → IsCurrent payload now last
repeat-IsCurrent none payload now h = cc
repeat-IsCurrent (some (last, at)) payload now h =
    let (same, soon) = and_split (beq_list last payload) (ltb (now - at) command_repeat) h in
    ((beq_list_iff last payload).0 same, ltb→lt (now - at) command_repeat soon)
  where
    and_split : (a b : Bool) → (a && b) ≡ true → (a ≡ true) × (b ≡ true)
    and_split true b h = (refl, h)
    and_split false b h = cc

publish_at-IsCurrent :
    (s : CommandSink) (now : ℕ) (source : ControlSource) (cmd : TeleopCommand)
    → s.queued ≡ none
    → IsCurrent (encode_command source cmd) now (publish_at s now source cmd).last
unfolding publish_at try_send
publish_at-IsCurrent s now source cmd h =
    elim (Bool-cases (is_repeat s.last (encode_command source cmd) now)) [
      | inl e ↦ rw e (repeat-IsCurrent s.last (encode_command source cmd) now e)
      | inr e ↦ rw (e, try_send, h) (refl, omega arith)
    ]

current_payload :
    (payload : List ℕ) (now : ℕ) (last : Option (List ℕ × ℕ))
    → IsCurrent payload now last
    → payload_of last ≡ some payload
current_payload payload now none h = absurd h
current_payload payload now (some (last, at)) h = ap some h.0

-- After a publication that finds the channel empty, whatever came before, the newest sample sent to
-- the monitors is the operator's command with its source as they are now, and it was sent less than
-- 250 ms ago.
pub publish-IsCurrent :
    (calls : List Call) (now : ℕ) (source : ControlSource) (cmd : TeleopCommand)
    → (replay calls).0.queued ≡ none
    → (newest_sent (replay (published now source cmd ∷ calls)) ≡ some (encode_command source cmd))
      × IsCurrent (encode_command source cmd) now (replay (published now source cmd ∷ calls)).0.last
unfolding replay
publish-IsCurrent calls now source cmd h =
    let current : IsCurrent (encode_command source cmd) now
        (publish_at (replay calls).0 now source cmd).last =
      publish_at-IsCurrent (replay calls).0 now source cmd h in
    (
      sym (last-newest_sent (published now source cmd ∷ calls))
          ∙ current_payload (encode_command source cmd) now
              (publish_at (replay calls).0 now source cmd).last current,
      current,
    )
