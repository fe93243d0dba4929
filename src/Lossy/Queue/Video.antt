-- ===== src/Lossy/Queue/Video.antt =====
-- The delta chunks that wait, and what each operation does to them.
pub mod Gapless
pub mod Sent
pub mod Fresh
use robotele.Prelude.{
  ℕ, ◌+◌, ◌-◌, ◌≡◌, ◌≤◌, refl, ap, sym, ◌∙◌, Bool, true, false, ◌||◌, ◌&&◌, not, Option, none, some,
  List, [], ◌∷◌, ◌++◌, map, ltb, ◌==◌, if◌then◌else◌, length, keep, arith, Bool-cases, Option-cases,
  inl, inr, ==_iff, ltb→lt, lt→ltb, ltb_false→le,
}
use robotele.Lossy.Queue.{
  PendingNal, LossyQueue, is_delta, is_parameter_set, type_of, retain_video, push_back,
  push_video_nal, any_stale, expire_stale_video, pop_video, pop_front, pop_chunk, pop_sensor,
  next_sensor, pop, or_else, nal_idr, is_nil, video_max_wait, drop_one,
}
use robotele.Wire.Datagram.{tag, tag_channel_a}
use robotele.Video.Chunk.{chunk_nal}
use mathlib.Core.List.{append-nil, append_assoc}

-- The chunks of the deltas in the queue, in their order.
unfoldable pub waiting : List PendingNal → List (List ℕ)
waiting [] = []
waiting (p ∷ ps) = if is_delta p.nal_type then p.chunks ++ waiting ps else waiting ps

pub waiting-append : (xs ys : List PendingNal) → waiting (xs ++ ys) ≡ waiting xs ++ waiting ys
unfolding waiting
waiting-append [] ys = refl
waiting-append (p ∷ xs) ys = elim (Bool-cases (is_delta p.nal_type)) [
  | inl q ↦ rw (q, waiting-append xs ys) (sym (append_assoc p.chunks (waiting xs) (waiting ys)))
  | inr q ↦ rw (q, waiting-append xs ys) refl
]

abbrev kept : (ℕ → Bool) → List PendingNal → List PendingNal
kept keeps ps = keep (λ (p : PendingNal). keeps p.nal_type) ps

-- A `retain` that keeps every delta.
waiting-keep_all :
    (keeps : ℕ → Bool) (ps : List PendingNal)
    → ((t : ℕ) → is_delta t ≡ true → keeps t ≡ true)
    → waiting (kept keeps ps) ≡ waiting ps
unfolding waiting
waiting-keep_all keeps [] h = refl
waiting-keep_all keeps (p ∷ ps) h = ground (arith, h p.nal_type, waiting-keep_all keeps ps h)

-- A `retain` that keeps no delta.
waiting-keep_none :
    (keeps : ℕ → Bool) (ps : List PendingNal)
    → ((t : ℕ) → is_delta t ≡ true → keeps t ≡ false)
    → waiting (kept keeps ps) ≡ []
unfolding waiting
waiting-keep_none keeps [] h = refl
waiting-keep_none keeps (p ∷ ps) h = ground (arith, h p.nal_type, waiting-keep_none keeps ps h)

abbrev pub first_chunk : List (List ℕ) → List (List ℕ)
first_chunk [] = []
first_chunk (c ∷ cs) = c ∷ []

-- The delta chunk at the front, which `pop_video` takes.
unfoldable pub front_delta : List PendingNal → List (List ℕ)
front_delta [] = []
front_delta (p ∷ ps) = if is_delta p.nal_type then first_chunk p.chunks else []

pop_chunk-waiting :
    (p : PendingNal) (ps : List PendingNal) (chunks : List (List ℕ))
    → (if is_delta p.nal_type then chunks ++ waiting ps else waiting ps)
      ≡ (if is_delta p.nal_type then first_chunk chunks else [])
        ++ waiting (pop_chunk p ps chunks).1
unfolding waiting
pop_chunk-waiting p ps [] = ground arith
pop_chunk-waiting p ps (c ∷ []) = ground arith
pop_chunk-waiting p ps (c ∷ (d ∷ cs)) = ground arith

pub pop_video-waiting :
    (video : List PendingNal) → waiting video ≡ front_delta video ++ waiting (pop_front video).1
unfolding waiting front_delta
pop_video-waiting [] = refl
pop_video-waiting (p ∷ ps) = pop_chunk-waiting p ps p.chunks

pop_chunk-popped :
    (p : PendingNal) (ps : List PendingNal) (chunks : List (List ℕ)) (c : List ℕ)
    → (if is_delta p.nal_type then first_chunk chunks else []) ≡ c ∷ []
    → (pop_chunk p ps chunks).0 ≡ some c
pop_chunk-popped p ps [] c h = ground arith
pop_chunk-popped p ps (x ∷ []) c h = ground arith
pop_chunk-popped p ps (x ∷ (y ∷ cs)) c h = ground arith

pub pop_front-popped :
    (video : List PendingNal) (c : List ℕ)
    → front_delta video ≡ c ∷ []
    → (pop_front video).0 ≡ some c
unfolding front_delta
pop_front-popped [] c h = cc
pop_front-popped (p ∷ ps) c h = pop_chunk-popped p ps p.chunks c h

pub pop_sensor-video :
    (q : LossyQueue)
    → ((pop_sensor q).1.video ≡ q.video)
      × ((pop_sensor q).1.skip_deltas_until_idr ≡ q.skip_deltas_until_idr)
unfolding pop_sensor
pop_sensor-video q = elim (Option-cases (next_sensor q)) [
  | inl e ↦ rw (e, pop_sensor) (refl, refl)
  | inr (id, e) ↦ rw (e, pop_sensor) (refl, refl)
]
