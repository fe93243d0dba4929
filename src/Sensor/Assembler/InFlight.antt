-- ===== src/Sensor/Assembler/InFlight.antt =====
-- crates/roboprotocol-core/src/sensor.rs: the ordered map of the frames in flight.
use robotele.Prelude.{
  ℕ, suc, ◌<◌, ◌≤◌, ◌≡◌, refl, ◌∙◌, Bool, true, false, not, some, List, [], ◌∷◌, arith, ltb, leb,
  ltb→lt, ◌==◌, ==_iff, Bool-cases, inl, inr, length, keep,
}
use robotele.Prelude.Assoc.{nat_eq, Every}
use robotele.Sensor.Assembler.{Pending, find, put, without, not_older}

-- The keys ascend.
abbrev pub Ascending : List (ℕ × Pending) → Type 0
Ascending [] = Unit
Ascending ((k, p) ∷ m) = Every (λ j _. k < j) m × Ascending m

keep-Every :
    (Q : ℕ → Pending → Type 0) (t : ℕ × Pending → Bool) (m : List (ℕ × Pending))
    → Every Q m
    → Every Q (keep t m)
keep-Every Q t [] h = tt
keep-Every Q t ((k, p) ∷ m) h = elim (Bool-cases (t (k, p))) [
  | inl e ↦ rw (keep, e) (h.0, keep-Every Q t m h.1)
  | inr e ↦ rw (keep, e) (keep-Every Q t m h.1)
]

keep-Ascending :
    (t : ℕ × Pending → Bool) (m : List (ℕ × Pending)) → Ascending m → Ascending (keep t m)
keep-Ascending t [] h = tt
keep-Ascending t ((k, p) ∷ m) h = elim (Bool-cases (t (k, p))) [
  | inl e ↦ rw (keep, e) (keep-Every (λ j _. k < j) t m h.0, keep-Ascending t m h.1)
  | inr e ↦ rw (keep, e) (keep-Ascending t m h.1)
]

length-keep : (t : ℕ × Pending → Bool) (m : List (ℕ × Pending)) → length (keep t m) ≤ length m
length-keep t [] = omega arith
length-keep t ((k, p) ∷ m) = elim (Bool-cases (t (k, p))) [
  | inl e ↦ rw (keep, e) (omega (arith, length-keep t m))
  | inr e ↦ rw (keep, e) (omega (arith, length-keep t m))
]

pub Every-map :
    (Q R : ℕ → Pending → Type 0) (m : List (ℕ × Pending))
    → ((k : ℕ) (p : Pending) → Q k p → R k p)
    → Every Q m
    → Every R m
Every-map Q R [] f h = tt
Every-map Q R ((k, p) ∷ m) f h = (f k p h.0, Every-map Q R m f h.1)

pub find-Every :
    (Q : ℕ → Pending → Type 0) (k : ℕ) (p : Pending) (m : List (ℕ × Pending))
    → Every Q m
    → find k m ≡ some p
    → Q k p
unfolding find
find-Every Q k p [] h e = cc
find-Every Q k p ((j, q) ∷ m) h e = elim (Bool-cases (j == k)) [
  | inl s ↦ let same : q ≡ p = cc (rw s at e) in rw (← (==_iff j k).0 s, ← same) h.0
  | inr s ↦ find-Every Q k p m h.1 (rw s at e)
]

pub put-Every :
    (Q : ℕ → Pending → Type 0) (k : ℕ) (p : Pending) (m : List (ℕ × Pending))
    → Q k p
    → Every Q m
    → Every Q (put k p m)
unfolding put
put-Every Q k p [] q h = (q, tt)
put-Every Q k p ((j, r) ∷ m) q h = elim (Bool-cases (k == j)) [
  | inl e ↦ rw e (q, h.1)
  | inr e ↦ elim (Bool-cases (ltb k j)) [
    | inl s ↦ rw (e, s) (q, h)
    | inr s ↦ rw (e, s) (h.0, put-Every Q k p m q h.1)
  ]
]

pub put-Ascending :
    (k : ℕ) (p : Pending) (m : List (ℕ × Pending)) → Ascending m → Ascending (put k p m)
unfolding put
put-Ascending k p [] h = (tt, tt)
put-Ascending k p ((j, r) ∷ m) h = elim (Bool-cases (k == j)) [
  | inl e ↦ rw e (rw (← (==_iff k j).0 e) at h.0, h.1)
  | inr e ↦ elim (Bool-cases (ltb k j)) [
    | inl s ↦
        rw (e, s)
          (
            (
              ltb→lt k j s,
              Every-map (λ i _. j < i) (λ i _. k < i) m (λ i _ lt. omega (arith, ltb→lt k j s)) h.0,
            ),
            h,
          )
    | inr s ↦
        rw (e, s)
          (put-Every (λ i _. j < i) k p m (ground (arith, e, s)) h.0, put-Ascending k p m h.1)
  ]
]

pub find-put_self : (k : ℕ) (p : Pending) (m : List (ℕ × Pending)) → find k (put k p m) ≡ some p
unfolding find put
find-put_self k p [] = ground arith
find-put_self k p ((j, r) ∷ m) = ground (arith, find-put_self k p m)

pub length-put :
    (k : ℕ) (p : Pending) (m : List (ℕ × Pending)) → length (put k p m) ≤ suc (length m)
unfolding put
length-put k p [] = omega arith
length-put k p ((j, r) ∷ m) = ground (arith, length-put k p m)

-- Writing the entry of a key that is there adds none.
pub length-put_found :
    (k : ℕ) (p q : Pending) (m : List (ℕ × Pending))
    → Ascending m
    → find k m ≡ some q
    → length (put k p m) ≡ length m
unfolding put find
length-put_found k p q [] h e = cc
length-put_found k p q ((j, r) ∷ m) h e = elim (Bool-cases (j == k)) [
  | inl s ↦ ground (arith, s)
  | inr s ↦
      let later : find k m ≡ some q = rw s at e in
      let above : j < k = find-Every (λ i _. j < i) k q m h.0 later in
      ground (arith, s, above, length-put_found k p q m h.1 later)
]

-- Removing a key that is there leaves fewer.
length-without :
    (k : ℕ) (p : Pending) (m : List (ℕ × Pending))
    → find k m ≡ some p
    → length (without k m) < length m
unfolding without find
length-without k p [] e = cc
length-without k p ((j, q) ∷ m) e = elim (Bool-cases (j == k)) [
  | inl s ↦
      rw (without, keep, s) (omega (arith, length-keep (λ (e : ℕ × Pending). not (e.0 == k)) m))
  | inr s ↦ rw (without, keep, s) (omega (arith, length-without k p m (rw s at e)))
]

pub length-emitted :
    (k : ℕ) (p : Pending) (m : List (ℕ × Pending))
    → find k m ≡ some p
    → length (not_older k (without k m)) < length m
unfolding not_older
length-emitted k p m e =
    omega
      (arith, length-keep (λ (e : ℕ × Pending). leb k e.0) (without k m), length-without k p m e)

-- What is left after `k` was emitted is newer.
pub newer_left : (k : ℕ) (m : List (ℕ × Pending)) → Every (λ j _. k < j) (not_older k (without k m))
unfolding not_older without
newer_left k [] = tt
newer_left k ((j, q) ∷ m) = elim (Bool-cases (j == k)) [
  | inl s ↦ rw (not_older, without, keep, s) (newer_left k m)
  | inr s ↦ elim (Bool-cases (leb k j)) [
    | inl t ↦ rw (not_older, without, keep, s, t) (ground (arith, s, t), newer_left k m)
    | inr t ↦ rw (not_older, without, keep, s, t) (newer_left k m)
  ]
]

-- What holds of every entry, and the order, are kept for what is left.
pub emitted-Every :
    (Q : ℕ → Pending → Type 0) (k : ℕ) (m : List (ℕ × Pending))
    → Every Q m
    → Every Q (not_older k (without k m))
unfolding not_older without
emitted-Every Q k m h =
    keep-Every Q (λ e. leb k e.0) (without k m) (keep-Every Q (λ e. not (e.0 == k)) m h)

pub emitted-Ascending :
    (k : ℕ) (m : List (ℕ × Pending)) → Ascending m → Ascending (not_older k (without k m))
unfolding not_older without
emitted-Ascending k m h =
    keep-Ascending (λ e. leb k e.0) (without k m) (keep-Ascending (λ e. not (e.0 == k)) m h)

pub find_first : (k : ℕ) (p : Pending) (m : List (ℕ × Pending)) → find k ((k, p) ∷ m) ≡ some p
unfolding find
find_first k p m = ground arith

pub find-put_ne :
    (k j : ℕ) (p : Pending) (m : List (ℕ × Pending))
    → (k == j) ≡ false
    → find j (put k p m) ≡ find j m
unfolding find put
find-put_ne k j p [] h = rw h refl
find-put_ne k j p ((i, r) ∷ m) h = ground (arith, h, find-put_ne k j p m h)

find-keep :
    (t : ℕ × Pending → Bool) (k : ℕ) (m : List (ℕ × Pending))
    → ((p : Pending) → t (k, p) ≡ true)
    → find k (keep t m) ≡ find k m
unfolding find
find-keep t k [] h = refl
find-keep t k ((j, p) ∷ m) h = elim (Bool-cases (j == k)) [
  | inl s ↦ let here : t (j, p) ≡ true = rw ((==_iff j k).0 s) (h p) in rw (keep, here, s) refl
  | inr s ↦ elim (Bool-cases (t (j, p))) [
    | inl e ↦ rw (keep, e, s) (find-keep t k m h)
    | inr e ↦ rw (keep, e, s) (find-keep t k m h)
  ]
]

-- A newer frame stays in flight when `k` is emitted.
pub find-emitted :
    (k j : ℕ) (m : List (ℕ × Pending)) → k < j → find j (not_older k (without k m)) ≡ find j m
unfolding not_older without
find-emitted k j m lt =
    find-keep (λ e. leb k e.0) j (without k m) (λ p. ground (arith, lt))
    ∙ find-keep (λ e. not (e.0 == k)) j m (λ p. ground (arith, lt))
