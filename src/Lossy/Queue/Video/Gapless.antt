-- ===== src/Lossy/Queue/Video/Gapless.antt =====
-- No delta is sent behind one that was dropped.
use robotele.Prelude.{
  ℕ, ◌≡◌, refl, ap, sym, ◌∙◌, true, false, not, List, [], ◌++◌, map, ◌==◌, if◌then◌else◌, arith,
  Bool-cases, inl, inr, ==_iff,
}
use robotele.Lossy.Queue.{
  LossyQueue, is_delta, is_parameter_set, type_of, retain_video, push_back, push_video_nal,
  any_stale, expire_stale_video, pop_video, pop_front, nal_idr, drop_one,
}
use robotele.Lossy.Queue.Video.{
  waiting, waiting-append, waiting-keep_all, waiting-keep_none, front_delta, pop_video-waiting,
}
use robotele.Wire.Datagram.{tag, tag_channel_a}
use robotele.Video.Chunk.{chunk_nal}
use mathlib.Core.List.{append-nil, append_assoc, append-eq-nil_iff}

-- `rest` is what of the deltas pushed since the last IDR is not sent: it waits, or it is skipped.
pub record Gapless (pushed sent : List (List ℕ)) (q : LossyQueue) : Type 0 where
  pub rest : List (List ℕ)
  pub in_order : sent ++ rest ≡ pushed
  pub waits : q.skip_deltas_until_idr ≡ false → waiting q.video ≡ rest
  pub skipped : q.skip_deltas_until_idr ≡ true → waiting q.video ≡ []

abbrev tagged : ℕ → List ℕ → List (List ℕ)
tagged nal_id nal = map (tag tag_channel_a) (chunk_nal nal_id nal)

-- What was pushed since the last IDR, after one more NAL unit.
unfoldable pub pushed_after : ℕ → List ℕ → List (List ℕ) → List (List ℕ)
pushed_after nal_id nal pushed =
    if is_delta (type_of nal)
    then pushed ++ tagged nal_id nal
    else if type_of nal == nal_idr
    then []
    else pushed

unfoldable pub sent_after : List ℕ → List (List ℕ) → List (List ℕ)
sent_after nal sent = if type_of nal == nal_idr then [] else sent

push_back-waiting :
    (nal_id : ℕ) (nal : List ℕ) (now : ℕ) (q : LossyQueue)
    → waiting (push_back nal_id nal now q).video
      ≡ waiting q.video ++ (if is_delta (type_of nal) then tagged nal_id nal else [])
unfolding push_back waiting
push_back-waiting nal_id nal now q =
    waiting-append q.video _
    ∙ ap (λ w. waiting q.video ++ w)
        (elim (Bool-cases (is_delta (type_of nal))) [
          | inl e ↦ rw e (append-nil (tagged nal_id nal))
          | inr e ↦ rw e refl
        ])

pub same-Gapless :
    (pushed sent : List (List ℕ)) (q r : LossyQueue)
    → waiting r.video ≡ waiting q.video
    → r.skip_deltas_until_idr ≡ q.skip_deltas_until_idr
    → Gapless pushed sent q
    → Gapless pushed sent r
same-Gapless pushed sent q r w s g = record {
  rest = g.rest;
  in_order = g.in_order;
  waits = λ e. w ∙ g.waits (sym s ∙ e);
  skipped = λ e. w ∙ g.skipped (sym s ∙ e);
}

push_parameter_set-waiting :
    (nal_id : ℕ) (nal : List ℕ) (now : ℕ) (q : LossyQueue)
    → is_parameter_set (type_of nal) ≡ true
    → waiting (push_back nal_id nal now (retain_video (λ t. not (t == type_of nal)) q)).video
      ≡ waiting q.video
unfolding retain_video
push_parameter_set-waiting nal_id nal now q p =
    let not_delta : is_delta (type_of nal) ≡ false = ground (arith, p) in
    push_back-waiting nal_id nal now (retain_video (λ t. not (t == type_of nal)) q)
    ∙ rw not_delta (
        append-nil _
        ∙ waiting-keep_all (λ t. not (t == type_of nal)) q.video
            (λ t d. ground (arith, p, d, ==_iff t (type_of nal))))

push_idr-waiting :
    (nal_id : ℕ) (nal : List ℕ) (now : ℕ) (q : LossyQueue)
    → is_delta (type_of nal) ≡ false
    → waiting (push_back nal_id nal now (retain_video is_parameter_set q)).video ≡ []
unfolding retain_video
push_idr-waiting nal_id nal now q d =
    push_back-waiting nal_id nal now (retain_video is_parameter_set q)
    ∙ rw d (append-nil _ ∙ waiting-keep_none is_parameter_set q.video (λ t e. ground (arith, e)))

push_delta-Gapless :
    (nal_id : ℕ) (nal : List ℕ) (now : ℕ) (pushed sent : List (List ℕ)) (q : LossyQueue)
    → is_delta (type_of nal) ≡ true
    → Gapless pushed sent q
    → Gapless
        (pushed ++ tagged nal_id nal)
        sent
        (if q.skip_deltas_until_idr then drop_one q else push_back nal_id nal now q)
unfolding push_back
push_delta-Gapless nal_id nal now pushed sent q d g =
    let order =
      sym (append_assoc sent g.rest (tagged nal_id nal))
      ∙ ap (λ w. w ++ tagged nal_id nal) g.in_order in
    elim (Bool-cases q.skip_deltas_until_idr) [
      | inl s ↦ rw s (record {
        rest = g.rest ++ tagged nal_id nal;
        in_order = order;
        waits = λ e. cc;
        skipped = λ e. g.skipped s;
      })
      | inr s ↦ rw s (record {
        rest = g.rest ++ tagged nal_id nal;
        in_order = order;
        waits = λ e. push_back-waiting nal_id nal now q ∙ rw (d, g.waits s) refl;
        skipped = λ e. cc;
      })
    ]

pub push_video_nal-Gapless :
    (nal_id : ℕ) (nal : List ℕ) (now : ℕ) (pushed sent : List (List ℕ)) (q : LossyQueue)
    → Gapless pushed sent q
    → Gapless
        (pushed_after nal_id nal pushed)
        (sent_after nal sent)
        (push_video_nal nal_id nal now q)
unfolding push_video_nal pushed_after sent_after push_back retain_video
push_video_nal-Gapless nal_id nal now pushed sent q g =
    let ty = type_of nal in
    elim (Bool-cases (is_parameter_set ty)) [
      | inl p ↦
          let no_idr : ty == nal_idr ≡ false = ground (arith, p) in
          rw (p, no_idr)
            (same-Gapless pushed sent q
              (push_back nal_id nal now (retain_video (λ t. not (t == ty)) q))
              (push_parameter_set-waiting nal_id nal now q p) refl g)
      | inr p ↦ elim (Bool-cases (ty == nal_idr)) [
        | inl i ↦
            let open_queue = record q { skip_deltas_until_idr = false } in
            let empty = push_idr-waiting nal_id nal now open_queue (rw (p, i) refl) in
            rw (p, i)
              (record { rest = []; in_order = refl; waits = λ e. empty; skipped = λ e. empty })
        | inr i ↦ rw (p, i) (push_delta-Gapless nal_id nal now pushed sent q (rw (p, i) refl) g)
      ]
    ]

pub expire-Gapless :
    (now : ℕ) (pushed sent : List (List ℕ)) (q : LossyQueue)
    → Gapless pushed sent q
    → Gapless pushed sent (expire_stale_video now q)
unfolding expire_stale_video retain_video
expire-Gapless now pushed sent q g = elim (Bool-cases (any_stale now q.video)) [
  | inr e ↦ rw (e, expire_stale_video) g
  | inl e ↦
      rw (e, expire_stale_video)
        (record {
          rest = g.rest;
          in_order = g.in_order;
          waits = λ s. cc;
          skipped = λ s. waiting-keep_none (λ t. not (is_delta t)) q.video (λ t d. rw d refl);
        })
]

-- Taking the front chunk.
pub pop_video-Gapless :
    (pushed sent : List (List ℕ)) (q : LossyQueue)
    → Gapless pushed sent q
    → Gapless pushed (sent ++ front_delta q.video) (pop_video q).1
unfolding pop_video
pop_video-Gapless pushed sent q g =
    let split = pop_video-waiting q.video in
    elim (Bool-cases q.skip_deltas_until_idr) [
      | inr s ↦ record {
        rest = waiting (pop_front q.video).1;
        in_order =
            append_assoc sent (front_delta q.video) (waiting (pop_front q.video).1)
            ∙ ap (λ w. sent ++ w) (sym split ∙ g.waits s)
            ∙ g.in_order;
        waits = λ e. refl;
        skipped = λ e. cc;
      }
      | inl s ↦
          let (no_front, no_rest) =
            (append-eq-nil_iff {p = front_delta q.video}).0 (sym split ∙ g.skipped s) in
          record {
            rest = g.rest;
            in_order = rw (no_front, append-nil sent) g.in_order;
            waits = λ e. cc;
            skipped = λ e. no_rest;
          }
    ]
