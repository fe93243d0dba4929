-- ===== src/Topic/Outbox/Latest.antt =====
-- The keys in the queue and the datagrams by key.
use robotele.Prelude.{
  ℕ, suc, ◌+◌, ◌≡◌, ◌≢◌, refl, sym, ap, ◌∙◌, subst, true, Option, none, some, List, [], ◌∷◌, ◌++◌,
  leb, if◌then◌else◌, length, arith, Bool-cases, Option-cases, inl, inr, suc_not_le,
}
use robotele.Prelude.Assoc.{
  list_eq, beq_list, beq_list_iff, lookup, remove, lookup-insert_self, lookup-insert_ne,
  lookup-remove_self, lookup-remove_ne,
}
use robotele.Wire.Datagram.{tag_topic}
use robotele.Topic.Sample.{TopicSample, encode}
use robotele.Topic.Outbox.{
  TopicOutbox, push_latest, panicked, drop_oversize, send_latest, pop_from, pop_datagram,
  with_backlog,
}

-- How often a key is queued.
unfoldable pub queued : List ℕ → List (List ℕ) → ℕ
queued key [] = 0
queued key (k ∷ ks) = let rest = queued key ks in if beq_list k key then suc rest else rest

abbrev pub present : Option (List ℕ) → ℕ
present none = 0
present (some d) = 1

-- A key is queued once if it has a datagram, and else not at all.
abbrev pub Queued : List (List ℕ) → TopicOutbox → Type 0
Queued order o = (key : List ℕ) → queued key order ≡ present (lookup key o.latest)

queued-push :
    (key k : List ℕ) (ks : List (List ℕ))
    → queued key (ks ++ k ∷ []) ≡ queued key ks + (if beq_list k key then 1 else 0)
unfolding queued
queued-push key k [] = ground arith
queued-push key k (x ∷ ks) = ground (arith, queued-push key k ks)

push_latest-Queued :
    (s : TopicSample) (o : TopicOutbox)
    → Queued o.order o
    → Queued (push_latest s o).order (push_latest s o)
unfolding push_latest
push_latest-Queued s o h key = elim (Option-cases (lookup s.key o.latest)) [
  | inl e ↦
      rw (e, push_latest)
        (elim (Bool-cases (beq_list s.key key)) [
          | inl q ↦
              let same : s.key ≡ key = (beq_list_iff s.key key).0 q in
              queued-push key s.key o.order
              ∙ rw (q, sym same)
                  (ground (
                    arith,
                    h s.key,
                    e,
                    ap present (lookup-insert_self s.key (tag_topic ∷ encode s) o.latest),
                  ))
          | inr q ↦
              queued-push key s.key o.order
              ∙ rw (q, lookup-insert_ne s.key key (tag_topic ∷ encode s) o.latest q)
                  (omega (arith, h key))
        ])
  | inr (d, e) ↦
      rw (e, push_latest)
        (elim (Bool-cases (beq_list s.key key)) [
          | inl q ↦
              let same : s.key ≡ key = (beq_list_iff s.key key).0 q in
              rw (sym same, lookup-insert_self s.key (tag_topic ∷ encode s) o.latest)
                (h s.key ∙ ap present e)
          | inr q ↦ rw (lookup-insert_ne s.key key (tag_topic ∷ encode s) o.latest q) (h key)
        ])
]

-- The first key's datagram taken out.
removed-Queued :
    (key : List ℕ) (order : List (List ℕ)) (o p : TopicOutbox) (d : List ℕ)
    → lookup key o.latest ≡ some d
    → p.latest ≡ remove key o.latest
    → Queued (key ∷ order) o
    → Queued order p
unfolding queued
removed-Queued key order o p d e r h k = rw r (elim (Bool-cases (beq_list key k)) [
  | inl q ↦
      let same : key ≡ k = (beq_list_iff key k).0 q in
      let once : suc (queued k order) ≡ present (lookup k o.latest) = rw q at (h k) in
      let there : lookup k o.latest ≡ some d = subst (λ j. lookup j o.latest ≡ some d) same e in
      let gone : lookup k (remove key o.latest) ≡ none =
        subst (λ j. lookup j (remove key o.latest) ≡ none) same (lookup-remove_self key o.latest) in
      rw gone (omega (arith, once ∙ ap present there))
  | inr q ↦ rw (lookup-remove_ne key k o.latest q) (rw q at (h k))
])

beq_list_refl : (key : List ℕ) → beq_list key key ≡ true
beq_list_refl key = (beq_list_iff key key).1 refl

pop_from-Queued :
    (max_len : ℕ) (order : List (List ℕ)) (o : TopicOutbox)
    → Queued order o
    → Queued (pop_from max_len order o).1.order (pop_from max_len order o).1
      × ((pop_from max_len order o).0 ≢ panicked)
unfolding pop_from queued
pop_from-Queued max_len [] o h = (h, λ e. cc)
pop_from-Queued max_len (key ∷ order) o h = elim (Option-cases (lookup key o.latest)) [
  | inl e ↦
      let first : suc (queued key order) ≡ present (lookup key o.latest) =
        rw (beq_list_refl key) at (h key) in
      elim (suc_not_le (queued key order) (omega (arith, first ∙ ap present e))) [ ]
  | inr (d, e) ↦ elim (Bool-cases (leb (length d) max_len)) [
    | inl q ↦
        rw (e, q, pop_from)
          (removed-Queued key order o (send_latest key order o) d e refl h, λ p. cc)
    | inr q ↦
        rw (e, q, pop_from)
          (pop_from-Queued max_len order (drop_oversize key o)
            (removed-Queued key order o (drop_oversize key o) d e refl h))
  ]
]

-- Calls on the queue of latest samples, the newest first.
pub data LatestCall : Type 0 where
  pushed : TopicSample → LatestCall
  popped : (max_len : ℕ) → LatestCall

unfoldable pub replay_latest : TopicOutbox → List LatestCall → TopicOutbox
replay_latest o [] = o
replay_latest o (pushed s ∷ cs) = push_latest s (replay_latest o cs)
replay_latest o (popped max_len ∷ cs) = (pop_datagram max_len (replay_latest o cs)).1

replay_latest-Queued :
    (backlog : ℕ) (cs : List LatestCall)
    → let o = replay_latest (with_backlog backlog) cs in Queued o.order o
unfolding replay_latest with_backlog pop_datagram queued lookup
replay_latest-Queued backlog [] key = refl
replay_latest-Queued backlog (pushed s ∷ cs) key =
    push_latest-Queued s (replay_latest (with_backlog backlog) cs) (replay_latest-Queued backlog cs)
      key
replay_latest-Queued backlog (popped max_len ∷ cs) key =
    let o = replay_latest (with_backlog backlog) cs in
    (pop_from-Queued max_len o.order o (replay_latest-Queued backlog cs)).0 key

-- After any pushes and pops: each key that has a datagram is queued once, each other key is not, so
-- a pop never meets a queued key without its datagram, which the code expects.
pub replay_latest-no_panic :
    (backlog : ℕ) (calls : List LatestCall) (max_len : ℕ)
    → let o = replay_latest (with_backlog backlog) calls in
      Queued o.order o × ((pop_datagram max_len o).0 ≢ panicked)
unfolding pop_datagram
replay_latest-no_panic backlog calls max_len =
    let o = replay_latest (with_backlog backlog) calls in
    let h = replay_latest-Queued backlog calls in (h, (pop_from-Queued max_len o.order o h).1)
