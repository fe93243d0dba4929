-- ===== src/Lossy/Queue/Sensors.antt =====
-- One sensor's queue under the policy `finish`: frames go out whole.
use robotele.Prelude.{
  ℕ, ◌≡◌, ◌⊎◌, refl, ap, sym, subst, ◌∙◌, true, false, Option, none, some, List, [], ◌∷◌, ◌++◌, inl,
  inr, Bool-cases,
}
use mathlib.Core.List.{append-nil, append_assoc}
use robotele.Lossy.Queue.{
  SensorQueue, LossyStats, finish, accept_frame, is_nil, promote, send_slice, first_slice,
  other_slices, sensor_or_default,
}

-- The slices of frames, in order.
abbrev pub slices_of : List (List (List ℕ)) → List (List ℕ)
slices_of [] = []
slices_of (f ∷ fs) = f ++ slices_of fs

abbrev pub AllFrames : (List (List ℕ) → Type 0) → List (List (List ℕ)) → Type 0
AllFrames P [] = Unit {0}
AllFrames P (f ∷ fs) = P f × AllFrames P fs

abbrev WaitingFrame : (List (List ℕ) → Type 0) → Option (List (List ℕ)) → Type 0
WaitingFrame P none = Unit {0}
WaitingFrame P (some w) = P w

-- What was sent is whole frames, and `part` of the one in hand; the frames are among those that `P`
-- holds for.
pub record Whole (P : List (List ℕ) → Type 0) (sent : List (List ℕ)) (s : SensorQueue)
    : Type 0 where
  pub whole_frames : List (List (List ℕ))
  pub part : List (List ℕ)
  pub all : AllFrames P whole_frames
  pub order : sent ≡ slices_of whole_frames ++ part
  pub in_hand : (part ++ s.current ≡ []) ⊎ P (part ++ s.current)
  pub fresh : s.started ≡ false → part ≡ []
  pub behind : WaitingFrame P s.waiting

slices_of-push :
    (fs : List (List (List ℕ))) (f : List (List ℕ))
    → slices_of fs ++ f ≡ slices_of (fs ++ f ∷ []) ++ []
slices_of-push [] f = sym (append-nil (f ++ []) ∙ append-nil f)
slices_of-push (g ∷ fs) f =
    append_assoc g (slices_of fs) f
    ∙ ap (λ w. g ++ w) (slices_of-push fs f)
    ∙ sym (append_assoc g (slices_of (fs ++ f ∷ [])) [])

AllFrames-push :
    (P : List (List ℕ) → Type 0) (fs : List (List (List ℕ))) (f : List (List ℕ))
    → AllFrames P fs
    → P f
    → AllFrames P (fs ++ f ∷ [])
AllFrames-push P [] f h p = (p, tt)
AllFrames-push P (g ∷ fs) f h p = (h.0, AllFrames-push P fs f h.1 p)

module _ (P : List (List ℕ) → Type 0) (sent : List (List ℕ)) where
  -- A new frame where none is partly sent.
  start_frame :
      (d : List (List ℕ)) (waiting : Option (List (List ℕ))) (fs : List (List (List ℕ)))
      → AllFrames P fs
      → sent ≡ slices_of fs ++ []
      → P d
      → WaitingFrame P waiting
      → Whole P sent (record { current = d; started = false; waiting = waiting })
  start_frame d waiting fs h order p w = record {
    whole_frames = fs;
    part = [];
    all = h;
    order = order;
    in_hand = inr p;
    fresh = λ e. refl;
    behind = w;
  }

  -- A new frame behind one that is sent to its end.
  next_frame :
      (d : List (List ℕ)) (waiting : Option (List (List ℕ))) (s : SensorQueue)
      → Whole P sent s
      → s.current ≡ []
      → P d
      → WaitingFrame P waiting
      → Whole P sent (record { current = d; started = false; waiting = waiting })
  next_frame d waiting s h e p w =
      let finished : (h.part ≡ []) ⊎ P h.part =
        subst (λ f. (f ≡ []) ⊎ P f) (ap (λ c. h.part ++ c) e ∙ append-nil h.part) h.in_hand in
      elim finished [
        | inl none_sent ↦
            start_frame d waiting h.whole_frames h.all
              (h.order ∙ ap (λ f. slices_of h.whole_frames ++ f) none_sent) p w
        | inr good ↦
            start_frame d waiting (h.whole_frames ++ h.part ∷ [])
              (AllFrames-push P h.whole_frames h.part h.all good)
              (h.order ∙ slices_of-push h.whole_frames h.part) p w
      ]

  nil_current : (c : List (List ℕ)) → is_nil c ≡ true → c ≡ []
  nil_current [] h = refl
  nil_current (x ∷ xs) h = cc

  push-Whole :
      (d : List (List ℕ)) (s : SensorQueue) (t : LossyStats)
      → P d
      → Whole P sent s
      → Whole P sent (accept_frame finish d s t).0
  unfolding accept_frame
  push-Whole d s t p h = elim (Bool-cases (is_nil s.current)) [
    | inl e ↦ rw (e, accept_frame) (next_frame d s.waiting s h (nil_current s.current e) p h.behind)
    | inr e ↦ elim (Bool-cases s.started) [
      | inr f ↦
          rw (e, f, accept_frame)
            (start_frame d s.waiting h.whole_frames h.all
              (h.order ∙ ap (λ w. slices_of h.whole_frames ++ w) (h.fresh f)) p h.behind)
      | inl f ↦
          rw (e, f, accept_frame)
            (record {
              whole_frames = h.whole_frames;
              part = h.part;
              all = h.all;
              order = h.order;
              in_hand = h.in_hand;
              fresh = λ g. cc;
              behind = p;
            })
    ]
  ]

  promote_waiting :
      (s : SensorQueue) (waiting : Option (List (List ℕ)))
      → s.waiting ≡ waiting
      → WaitingFrame P waiting
      → s.current ≡ []
      → Whole P sent s
      → Whole P sent (elim waiting [
        | none ↦ s
        | some w ↦ record s { current = w; started = false; waiting = none }
      ])
  promote_waiting s none e w c h = h
  promote_waiting s (some w) e p c h = next_frame w none s h c p tt

  promote-Whole : (s : SensorQueue) → Whole P sent s → Whole P sent (promote s)
  promote-Whole s h = elim (Bool-cases (is_nil s.current)) [
    | inl e ↦ rw e (promote_waiting s s.waiting refl h.behind (nil_current s.current e) h)
    | inr e ↦ rw e h
  ]

abbrev pub slices_out : Option (List ℕ) → List (List ℕ)
slices_out none = []
slices_out (some x) = x ∷ []

-- The first slice taken from the frame in hand.
take_slice :
    (P : List (List ℕ) → Type 0) (sent : List (List ℕ)) (s : SensorQueue) (current : List (List ℕ))
    → s.current ≡ current
    → Whole P sent s
    → Whole P
        (sent ++ slices_out (first_slice current))
        (record s { current = other_slices current; started = true })
take_slice P sent s [] e h = record {
  whole_frames = h.whole_frames;
  part = h.part;
  all = h.all;
  order = append-nil sent ∙ h.order;
  in_hand = subst (λ c. (h.part ++ c ≡ []) ⊎ P (h.part ++ c)) e h.in_hand;
  fresh = λ f. cc;
  behind = h.behind;
}
take_slice P sent s (x ∷ xs) e h = record {
  whole_frames = h.whole_frames;
  part = h.part ++ x ∷ [];
  all = h.all;
  order = ap (λ w. w ++ x ∷ []) h.order ∙ append_assoc (slices_of h.whole_frames) h.part (x ∷ []);
  in_hand =
      subst (λ f. (f ≡ []) ⊎ P f) (sym (append_assoc h.part (x ∷ []) xs))
        (subst (λ c. (h.part ++ c ≡ []) ⊎ P (h.part ++ c)) e h.in_hand);
  fresh = λ f. cc;
  behind = h.behind;
}

send-Whole :
    (P : List (List ℕ) → Type 0) (sent : List (List ℕ)) (s : SensorQueue)
    → Whole P sent s
    → Whole P (sent ++ slices_out (send_slice (promote s)).0) (send_slice (promote s)).1
unfolding send_slice
send-Whole P sent s h =
    let taken = take_slice P sent (promote s) (promote s).current refl (promote-Whole P sent s h) in
    promote-Whole P (sent ++ slices_out (first_slice (promote s).current)) _ taken

-- What one sensor's queue is given: frames, and turns to send a slice.
pub data SensorCall : Type 0 where
  frame_pushed : List (List ℕ) → SensorCall
  slice_sent : SensorCall

-- The queue, and what it sent, after the calls, the newest first.
unfoldable pub replay_sensor :
    SensorQueue × List (List ℕ) → LossyStats → List SensorCall → SensorQueue × List (List ℕ)
replay_sensor q t [] = q
replay_sensor q t (frame_pushed d ∷ cs) =
    let (s, sent) = replay_sensor q t cs in ((accept_frame finish d s t).0, sent)
replay_sensor q t (slice_sent ∷ cs) =
    let (s, sent) = replay_sensor q t cs in
    let (slice, s') = send_slice (promote s) in (s', sent ++ slices_out slice)

abbrev pub AllPushed : (List (List ℕ) → Type 0) → List SensorCall → Type 0
AllPushed P [] = Unit {0}
AllPushed P (frame_pushed d ∷ cs) = P d × AllPushed P cs
AllPushed P (slice_sent ∷ cs) = AllPushed P cs

-- Under the policy `finish`, over any pushes and sends of a sensor's queue: what was sent is whole
-- frames, one behind the other, and then the first slices of one more; each of these is a frame that
-- was pushed (it has whatever property `P` the pushed ones have), and what of the last one is not
-- sent is still to come.
pub replay_sensor-Whole :
    (P : List (List ℕ) → Type 0) (t : LossyStats) (calls : List SensorCall)
    → AllPushed P calls
    → let (s, sent) = replay_sensor (sensor_or_default none, []) t calls in Whole P sent s
unfolding replay_sensor
replay_sensor-Whole P t [] h = record {
  whole_frames = [];
  part = [];
  all = tt;
  order = refl;
  in_hand = inl refl;
  fresh = λ e. refl;
  behind = tt;
}
replay_sensor-Whole P t (frame_pushed d ∷ cs) h =
    let (s, sent) = replay_sensor (sensor_or_default none, []) t cs in
    push-Whole P sent d s t h.0 (replay_sensor-Whole P t cs h.1)
replay_sensor-Whole P t (slice_sent ∷ cs) h =
    let (s, sent) = replay_sensor (sensor_or_default none, []) t cs in
    send-Whole P sent s (replay_sensor-Whole P t cs h)
