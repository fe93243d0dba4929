-- ===== src/Wire/Dedup/Once.antt =====
-- A trigger is applied at most once, and never after a newer one.
use robotele.Prelude.{
  ℕ, ◌<◌, ◌≤◌, ◌≡◌, sym, subst, true, false, Option, none, some, List, [], ◌∷◌, arith, refl, ltb,
  ltb→lt, Bool-cases, inl, inr,
}
use robotele.Wire.Dedup.{ActionTrigger, TriggerDedup, accept, applied}

-- Above the sequence number that was applied last, if any.
abbrev pub Above : Option ℕ → ℕ → Type 0
Above none s = Unit {0}
Above (some last) s = last < s

-- Strictly rising, and above what was applied before.
abbrev pub Rising : Option ℕ → List ℕ → Type 0
Rising last [] = Unit {0}
Rising last (s ∷ ss) = Above last s × Rising (some s) ss

-- What is applied last, after a stream.
abbrev pub last_of : Option ℕ → List ℕ → Option ℕ
last_of last [] = last
last_of last (s ∷ ss) = last_of (some s) ss

abbrev pub AtMost : Option ℕ → ℕ → Type 0
AtMost none s = ⊥
AtMost (some last) s = s ≤ last

-- No trigger of the stream is newer.
abbrev pub NoneNewer : Option ℕ → List ActionTrigger → Type 0
NoneNewer last [] = Unit {0}
NoneNewer last (t ∷ ts) = AtMost last t.trigger_seq × NoneNewer last ts

-- What is applied rises, and starts from at least `s`.
grown :
    (last s : ℕ) (ss : List ℕ)
    → s ≤ last
    → Rising (some last) ss
    → AtMost (last_of (some last) ss) s
grown last s [] h r = h
grown last s (x ∷ ss) h r = grown x s ss (omega (arith, h, r.0)) r.1

skipped_lem :
    (last : ℕ) (ts : List ActionTrigger) (t : ActionTrigger)
    → ltb last t.trigger_seq ≡ false
    → (Rising (some last) (applied (record { last_applied = some last }) ts)
        × NoneNewer (last_of (some last) (applied (record { last_applied = some last }) ts)) ts)
    → Rising (some last) (applied (record { last_applied = some last }) ts)
      × NoneNewer (last_of (some last) (applied (record { last_applied = some last }) ts)) (t ∷ ts)
skipped_lem last ts t old h = (h.0, (grown last t.trigger_seq _ (ground (arith, old)) h.0, h.1))

taken_lem :
    (last : Option ℕ) (s : ℕ) (ts : List ActionTrigger) (ss : List ℕ) (t : ActionTrigger)
    → t.trigger_seq ≡ s
    → Above last s
    → Rising (some s) ss × NoneNewer (last_of (some s) ss) ts
    → Rising last (s ∷ ss) × NoneNewer (last_of last (s ∷ ss)) (t ∷ ts)
taken_lem last s ts ss t e above h =
    ((above, h.0), (grown s t.trigger_seq ss (omega (arith, e)) h.0, h.1))

applied-new :
    (last : ℕ) (t : ActionTrigger) (ts : List ActionTrigger)
    → ltb last t.trigger_seq ≡ true
    → applied (record { last_applied = some last }) (t ∷ ts)
      ≡ t.trigger_seq ∷ applied (record { last_applied = some t.trigger_seq }) ts
unfolding applied accept
applied-new last t ts h = rw h refl

applied-old :
    (last : ℕ) (t : ActionTrigger) (ts : List ActionTrigger)
    → ltb last t.trigger_seq ≡ false
    → applied (record { last_applied = some last }) (t ∷ ts)
      ≡ applied (record { last_applied = some last }) ts
unfolding applied accept
applied-old last t ts h = rw h refl

abbrev Both : Option ℕ → List ActionTrigger → List ℕ → Type 0
Both last ts ss = Rising last ss × NoneNewer (last_of last ss) ts

applied_from :
    (last : Option ℕ) (ts : List ActionTrigger)
    → Both last ts (applied (record { last_applied = last }) ts)
unfolding applied accept
applied_from last [] = (tt, tt)
applied_from none (t ∷ ts) =
    taken_lem none t.trigger_seq ts (applied (record { last_applied = some t.trigger_seq }) ts) t
      refl tt (applied_from (some t.trigger_seq) ts)
applied_from (some last) (t ∷ ts) = elim (Bool-cases (ltb last t.trigger_seq)) [
  | inl new ↦ subst (Both (some last) (t ∷ ts)) (sym (applied-new last t ts new)) (
      taken_lem (some last) t.trigger_seq ts
        (applied (record { last_applied = some t.trigger_seq }) ts) t refl (ltb→lt _ _ new)
        (applied_from (some t.trigger_seq) ts))
  | inr old ↦
      subst (Both (some last) (t ∷ ts)) (sym (applied-old last t ts old))
        (skipped_lem last ts t old (applied_from (some last) ts))
]

-- Whatever the stream carries, duplicates, retries and late triggers included, the sequence numbers
-- that are applied rise strictly, from above the one applied before, so none is applied twice or
-- after a newer one; and none of the stream is newer than the one applied last, so none is lost
-- unless it was applied before or a newer one was.
pub applied-Rising :
    (d : TriggerDedup) (ts : List ActionTrigger)
    → Rising d.last_applied (applied d ts) × NoneNewer (last_of d.last_applied (applied d ts)) ts
applied-Rising d ts = applied_from d.last_applied ts
