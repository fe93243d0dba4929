-- ===== src/Topic/Reader/Pieces.antt =====
-- How a stream's bytes are cut into reads makes no difference.
use robotele.Prelude.{
  ℕ, zero, suc, ◌≤◌, ◌<◌, ◌≡◌, refl, ap, sym, ◌∙◌, Bool, true, false, List, [], ◌∷◌, ◌++◌, ltb,
  length, take, drop, arith, Bool-cases, inl, inr, ◌⊎◌, suc_not_le, subst, length-append,
  length-drop, take-append_le, drop-append_le, get_or-append, ltb_false→le,
}
use robotele.Prelude.Bytes.{from_be_bytes}
use robotele.Prelude.Result.{Result, ok, err}
use mathlib.Core.List.{append_assoc}
use robotele.Topic.Sample.{TopicSample, TopicError, too_large, decode, max_topic_sample}
use robotele.Topic.Reader.{
  TopicStreamReader, Pushed, Turn, incomplete, over_limit, frame, turn, failure, waits, add,
  frames_fuel, frames, has_magic, settle, push,
}

-- A turn that has what it needs is not changed by the bytes behind.
abbrev MoreBytes : Turn → List ℕ → List ℕ → Type 0
MoreBytes incomplete buf more = Unit {0}
MoreBytes (over_limit len) buf more = turn (buf ++ more) ≡ over_limit len
MoreBytes (frame body rest) buf more =
    (turn (buf ++ more) ≡ frame body (rest ++ more)) × (length rest < length buf)

turn-MoreBytes : (buf more : List ℕ) → MoreBytes (turn buf) buf more
unfolding turn
turn-MoreBytes buf more =
    let len = from_be_bytes (take 4 buf) in
    let body = drop 4 buf in
    elim (Bool-cases (ltb (length buf) 4)) [
      | inl q ↦ rw (q, turn) tt
      | inr q ↦
          let long = ltb_false→le (length buf) 4 q in
          let long' : ltb (length (buf ++ more)) 4 ≡ false =
            ground (arith, length-append buf more) in
          let same = take-append_le 4 buf more long in
          let behind = drop-append_le 4 buf more long in
          elim (Bool-cases (ltb max_topic_sample len)) [
            | inl o ↦ rw (q, o, turn) (rw (long', same, o) refl)
            | inr o ↦ elim (Bool-cases (ltb (length body) len)) [
              | inl m ↦ rw (q, o, m, turn) tt
              | inr m ↦
                  let enough = ltb_false→le (length body) len m in
                  let m' : ltb (length (body ++ more)) len ≡ false =
                    ground (arith, length-append body more) in
                  rw (q, o, m, turn)
                    (
                      rw
                          (
                            long',
                            same,
                            o,
                            behind,
                            m',
                            take-append_le len body more enough,
                            drop-append_le len body more enough,
                          )
                          refl,
                      omega (arith, length-drop len body, length-drop 4 buf),
                    )
            ]
          ]
    ]

pub turn-cases :
    (t : Turn)
    → (t ≡ incomplete)
      ⊎ (((len : ℕ) × (t ≡ over_limit len))
          ⊎ ((body : List ℕ) × ((rest : List ℕ) × (t ≡ frame body rest))))
turn-cases incomplete = inl refl
turn-cases (over_limit len) = inr (inl (len, refl))
turn-cases (frame body rest) = inr (inr (body, (rest, refl)))

frame-shorter : (buf body rest : List ℕ) → turn buf ≡ frame body rest → length rest < length buf
frame-shorter buf body rest e = (subst (λ t. MoreBytes t buf []) e (turn-MoreBytes buf [])).1

-- Any fuel from the buffer's length on gives the same.
frames_enough :
    (f g : ℕ) (buf : List ℕ)
    → length buf ≤ f
    → length buf ≤ g
    → frames_fuel f buf ≡ frames_fuel g buf
unfolding frames_fuel turn
frames_enough zero zero buf h k = refl
frames_enough zero (suc g) [] h k = refl
frames_enough zero (suc g) (x ∷ xs) h k = elim (suc_not_le (length xs) h) [ ]
frames_enough (suc f) zero [] h k = refl
frames_enough (suc f) zero (x ∷ xs) h k = elim (suc_not_le (length xs) k) [ ]
frames_enough (suc f) (suc g) buf h k = elim (turn-cases (turn buf)) [
  | inl e ↦ rw (e, frames_fuel) refl
  | inr (inl (len, e)) ↦ rw (e, frames_fuel) refl
  | inr (inr (body, (rest, e))) ↦
      let shorter = frame-shorter buf body rest e in
      rw (e, frames_fuel)
        (ap (add (decode body)) (frames_enough f g rest (omega arith) (omega arith)))
]

-- What a turn leads to.
unfoldable pub after : List ℕ → Turn → Pushed
after buf incomplete = waits true buf
after buf (over_limit len) = failure (too_large len)
after buf (frame body rest) = add (decode body) (frames rest)

pub frames-after : (buf : List ℕ) → frames buf ≡ after buf (turn buf)
unfolding frames frames_fuel after turn
frames-after [] = refl
frames-after (x ∷ xs) = elim (turn-cases (turn (x ∷ xs))) [
  | inl e ↦ rw (e, frames_fuel) refl
  | inr (inl (len, e)) ↦ rw (e, frames_fuel) refl
  | inr (inr (body, (rest, e))) ↦
      let shorter = frame-shorter (x ∷ xs) body rest e in
      rw (e, frames_fuel)
        (ap (add (decode body))
          (frames_enough (length xs) (length rest) rest (omega arith) (omega arith)))
]

-- One more call, its results behind those of the calls before.
abbrev pub then_push : Pushed → List ℕ → Pushed
then_push p more =
    let q = push p.reader more in
    record { samples = p.samples ++ q.samples; errors = p.errors ++ q.errors; reader = q.reader }

add-then_push :
    (d : Result TopicError TopicSample) (p : Pushed) (more : List ℕ)
    → add d (then_push p more) ≡ then_push (add d p) more
add-then_push (ok s) p more = refl
add-then_push (err e) p more = refl

-- The three outcomes of a turn, each with more bytes behind.
incomplete-append :
    (buf more : List ℕ) → turn buf ≡ incomplete → frames (buf ++ more) ≡ then_push (frames buf) more
unfolding push settle after
incomplete-append buf more e = rw (frames-after buf, e, after) refl

over_limit-append :
    (buf more : List ℕ) (len : ℕ)
    → turn buf ≡ over_limit len
    → frames (buf ++ more) ≡ then_push (frames buf) more
unfolding push after
over_limit-append buf more len e =
    let longer = subst (λ t. MoreBytes t buf more) e (turn-MoreBytes buf more) in
    rw (frames-after (buf ++ more), longer, frames-after buf, e, after) refl

frame-append :
    (buf body rest more : List ℕ)
    → turn buf ≡ frame body rest
    → frames (rest ++ more) ≡ then_push (frames rest) more
    → frames (buf ++ more) ≡ then_push (frames buf) more
unfolding after
frame-append buf body rest more e later =
    let longer = (subst (λ t. MoreBytes t buf more) e (turn-MoreBytes buf more)).0 in
    frames-after (buf ++ more)
    ∙ ap (after (buf ++ more)) longer
    ∙ ap (add (decode body)) later
    ∙ add-then_push (decode body) (frames rest) more
    ∙ ap (λ p. then_push p more) (sym (frames-after buf ∙ ap (after buf) e))

frames-append :
    (fuel : ℕ) (buf more : List ℕ)
    → length buf ≤ fuel
    → frames (buf ++ more) ≡ then_push (frames buf) more
unfolding frames frames_fuel push settle
frames-append zero [] more h = refl
frames-append zero (x ∷ xs) more h = elim (suc_not_le (length xs) h) [ ]
frames-append (suc fuel) buf more h = elim (turn-cases (turn buf)) [
  | inl e ↦ incomplete-append buf more e
  | inr (inl (len, e)) ↦ over_limit-append buf more len e
  | inr (inr (body, (rest, e))) ↦
      let shorter = frame-shorter buf body rest e in
      frame-append buf body rest more e (frames-append fuel rest more (omega arith))
]

-- The header, once both its bytes are there.
header-append :
    (buf more : List ℕ)
    → 2 ≤ length buf
    → (has_magic (buf ++ more) ≡ has_magic buf) × (drop 2 (buf ++ more) ≡ drop 2 buf ++ more)
header-append buf more h = (
  rw (get_or-append 0 0 buf more (omega arith), get_or-append 1 0 buf more (omega arith)) refl,
  drop-append_le 2 buf more h,
)

settle-append :
    (header_seen : Bool) (buf more : List ℕ)
    → settle header_seen (buf ++ more) ≡ then_push (settle header_seen buf) more
unfolding settle push
settle-append true buf more = frames-append (length buf) buf more (omega arith)
settle-append false buf more = elim (Bool-cases (ltb (length buf) 2)) [
  | inl q ↦ rw (q, settle) refl
  | inr q ↦
      let long = ltb_false→le (length buf) 2 q in
      let long' : ltb (length (buf ++ more)) 2 ≡ false = ground (arith, length-append buf more) in
      let (magic, behind) = header-append buf more long in
      elim (Bool-cases (has_magic buf)) [
        | inl m ↦
            rw (q, m, long', magic ∙ m, behind)
              (frames-append (length (drop 2 buf)) (drop 2 buf) more (omega arith))
        | inr m ↦ rw (q, m, long', magic ∙ m) refl
      ]
]

-- However a stream's bytes are cut into reads, the reader returns the same samples and errors, each
-- in the same order, and is left in the same state: two reads do what one with all the bytes does.
pub push-append :
    (r : TopicStreamReader) (xs ys : List ℕ) → push r (xs ++ ys) ≡ then_push (push r xs) ys
unfolding push
push-append r xs ys = elim (Bool-cases r.failed) [
  | inl f ↦ rw (f, push) refl
  | inr f ↦
      rw (f, push)
        (ap (settle r.header_seen) (sym (append_assoc r.buf xs ys))
          ∙ settle-append r.header_seen (r.buf ++ xs) ys)
]
