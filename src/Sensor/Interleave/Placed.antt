-- ===== src/Sensor/Interleave/Placed.antt =====
-- crates/roboprotocol-core/src/sensor.rs: the loops that put received slices back write each
-- slice's elements to the places that they were dealt from, and no others.
use robotele.Prelude.{
  ℕ, suc, ◌+◌, ◌*◌, ◌<◌, ◌≤◌, ◌≡◌, ◌≢◌, refl, sym, ap, ◌∙◌, Bool, true, false, ◌&&◌, none, some,
  List, [], ◌∷◌, arith, leb, leb→le, ◌-◌, ◌==◌, ==_iff, Bool-cases, inl, inr, if◌then◌else◌, length,
  get_elem?, get_or,
}
use robotele.Prelude.Positions.{
  set, length-set, get_elem?-set_self, get_elem?-set_ne, get_elem?-none, row_of,
}

and_split : (a b : Bool) → (a && b) ≡ true → (a ≡ true) × (b ≡ true)
and_split true true h = (refl, refl)
and_split true false h = cc
and_split false b h = cc

place_le : (n j q : ℕ) → j ≤ q → j * n ≤ q * n
place_le n j q h = grind arith

next_test :
    (r k j q : ℕ) → (r == k && q == j) ≡ false → (r == k && leb (j + 1) q) ≡ (r == k && leb j q)
next_test r k j q h = ground (arith, h)

elsewhere : (n k j r q : ℕ) → k < n → r < n → (r == k && q == j) ≡ false → k + j * n ≢ r + q * n
elsewhere n k j r q hk hr e w =
    let (row, spot) = row_of n k j r q hk hr w in ground (arith, row, spot)

-- The slice's `j`-th place lies beyond the frame: so do the later ones.
beyond_frame :
    (n count k j r q : ℕ) → count ≤ k + j * n → r + q * n < count → (r == k && leb j q) ≡ false
beyond_frame n count k j r q h lt = elim (Bool-cases (r == k && leb j q)) [
  | inr e ↦ e
  | inl e ↦
      let (row, later) = and_split (r == k) (leb j q) e in
      absurd (omega (arith, (==_iff r k).0 row, place_le n j q (leb→le j q later)))
]

ltb_past : (k r : ℕ) → r < k → leb k r ≡ false
ltb_past k r h = ground arith

-- The slices after `k`, and `k` itself, are the slices from `k` on.
from_here {ℓ} :
    {B : Type ℓ} (k r : ℕ) (arrives : ℕ → Bool) (new old : B)
    → (if leb (k + 1) r && arrives r then new else if r == k && arrives k then new else old)
      ≡ (if leb k r && arrives r then new else old)
from_here k r arrives new old = elim (Bool-cases (r == k)) [
  | inl e ↦ rw ((==_iff r k).0 e) (ground arith)
  | inr e ↦ ground (arith, e)
]

module _ {ℓ} {A : Type ℓ} where
  -- `place` on a buffer of elements.
  unfoldable pub fill : (n count k j : ℕ) → List A → List A → List A
  fill n count k j [] buf = buf
  fill n count k j (x ∷ xs) buf =
      let idx : ℕ = k + j * n in
      let rest = fill n count k (j + 1) xs (set buf idx x) in if leb count idx then buf else rest

  -- `place_all` on a buffer of elements.
  unfoldable pub fill_all : (n count k : ℕ) → (ℕ → Bool) → List (List A) → List A → List A
  unfolding fill
  fill_all n count k arrives [] buf = buf
  fill_all n count k arrives (xs ∷ slices) buf =
      fill_all n count (k + 1) arrives slices (if arrives k then fill n count k 0 xs buf else buf)

  pub length-fill :
      (n count k j : ℕ) (xs buf : List A) → length (fill n count k j xs buf) ≡ length buf
  unfolding fill
  length-fill n count k j [] buf = refl
  length-fill n count k j (x ∷ xs) buf = ground (
    arith,
    length-fill n count k (j + 1) xs (set buf (k + j * n) x),
    length-set buf (k + j * n) x,
  )

  -- At the end of a slice no element of it is left.
  none_left :
      (n k j : ℕ) (all : List A)
      → ((m : ℕ) → none ≡ get_elem? all (k + (j + m) * n))
      → (r q : ℕ) → r + q * n < length all
      → (r == k && leb j q) ≡ false
  none_left n k j all rest r q lt = elim (Bool-cases (r == k && leb j q)) [
    | inr e ↦ e
    | inl e ↦
        let (row, later) = and_split (r == k) (leb j q) e in
        let same : r ≡ k = (==_iff r k).0 row in
        let from : j ≤ q = leb→le j q later in
        let spot : k + (j + (q - j)) * n ≡ r + q * n =
          ap (λ t. k + t * n) {x = j + (q - j)} {y = q} (omega arith) ∙ omega (arith, same) in
        absurd (
          omega (
            arith,
            get_elem?-none all (r + q * n) (ap (get_elem? all) (sym spot) ∙ sym (rest (q - j))),
          ))
  ]

  -- What the write of the slice's `j`-th element does to the reads.
  write_reads :
      (n k j : ℕ) (all buf : List A) (x : A)
      → k < n
      → k + j * n < length buf
      → get_elem? all (k + j * n) ≡ some x
      → (r q : ℕ) → r < n
      → (if r == k && leb (j + 1) q
          then get_elem? all (r + q * n)
          else get_elem? (set buf (k + j * n) x) (r + q * n))
        ≡ (if r == k && leb j q then get_elem? all (r + q * n) else get_elem? buf (r + q * n))
  write_reads n k j all buf x hk lt at r q hr = elim (Bool-cases (r == k && q == j)) [
    | inr e ↦ rw (
      next_test r k j q e,
      get_elem?-set_ne buf (k + j * n) (r + q * n) x (elsewhere n k j r q hk hr e),
    )
    | inl e ↦
        let (row, spot) = and_split (r == k) (q == j) e in
        let here : r + q * n ≡ k + j * n = rw ((==_iff r k).0 row, (==_iff q j).0 spot) in
        rw (here, get_elem?-set_self buf (k + j * n) x lt, at) (ground (arith, row, spot))
  ]

  -- Slice `k` writes the places `k + q * n` from its `j`-th on.
  fill_reads :
      (n count k j : ℕ) (all xs buf : List A)
      → k < n
      → length buf ≡ count
      → length all ≡ count
      → ((m : ℕ) → get_elem? xs m ≡ get_elem? all (k + (j + m) * n))
      → (r q : ℕ) → r < n
      → r + q * n < count
      → get_elem? (fill n count k j xs buf) (r + q * n)
        ≡ (if r == k && leb j q then get_elem? all (r + q * n) else get_elem? buf (r + q * n))
  unfolding fill
  fill_reads n count k j all [] buf hk hb ha rest r q hr lt =
      rw (none_left n k j all rest r q (rw ha lt))
  fill_reads n count k j all (x ∷ xs) buf hk hb ha rest r q hr lt =
      elim (Bool-cases (leb count (k + j * n))) [
        | inl e ↦ rw (e, beyond_frame n count k j r q (leb→le _ _ e) lt)
        | inr e ↦ rw e (
            fill_reads n count k (j + 1) all xs (set buf (k + j * n) x) hk
              (length-set buf (k + j * n) x ∙ hb) ha
              (λ m.
                rest (suc m)
                ∙ ap (λ t. get_elem? all (k + t * n)) {x = j + suc m} {y = j + 1 + m} (omega arith))
              r q hr lt
            ∙ write_reads n k j all buf x hk (ground (arith, e, hb))
                (ap (λ t. get_elem? all (k + t * n)) {x = j} {y = j + 0} (omega arith)
                  ∙ sym (rest 0))
                r q hr)
      ]

  -- One slice, if it arrived.
  slice_reads :
      (n count k : ℕ) (here : Bool) (all xs buf : List A)
      → k < n
      → length buf ≡ count
      → length all ≡ count
      → ((m : ℕ) → get_elem? xs m ≡ get_elem? all (k + m * n))
      → (r q : ℕ) → r < n
      → r + q * n < count
      → get_elem? (if here then fill n count k 0 xs buf else buf) (r + q * n)
        ≡ (if r == k && here then get_elem? all (r + q * n) else get_elem? buf (r + q * n))
  slice_reads n count k false all xs buf hk hb ha rest r q hr lt = ground arith
  slice_reads n count k true all xs buf hk hb ha rest r q hr lt =
      fill_reads n count k 0 all xs buf hk hb ha
        (λ m. rest m ∙ ap (λ t. get_elem? all (k + t * n)) {x = m} {y = 0 + m} (omega arith)) r q hr
        lt
      ∙ ground arith

  length-slice :
      (n count k : ℕ) (here : Bool) (xs buf : List A)
      → length (if here then fill n count k 0 xs buf else buf) ≡ length buf
  length-slice n count k true xs buf = length-fill n count k 0 xs buf
  length-slice n count k false xs buf = refl

  -- After all the slices, the places of those that arrived are written.
  pub fill_all_reads :
      (n count k : ℕ) (arrives : ℕ → Bool) (all : List A) (slices : List (List A)) (buf : List A)
      → k + length slices ≡ n
      → length buf ≡ count
      → length all ≡ count
      → ((s m : ℕ)
          → s < length slices
          → get_elem? (get_or slices s []) m ≡ get_elem? all (k + s + m * n))
      → (r q : ℕ) → r < n
      → r + q * n < count
      → get_elem? (fill_all n count k arrives slices buf) (r + q * n)
        ≡ (if leb k r && arrives r then get_elem? all (r + q * n) else get_elem? buf (r + q * n))
  unfolding fill_all
  fill_all_reads n count k arrives all [] buf hn hb ha rest r q hr lt =
      rw (ltb_past k r (omega arith))
  fill_all_reads n count k arrives all (xs ∷ slices) buf hn hb ha rest r q hr lt =
      fill_all_reads n count (k + 1) arrives all slices
        (if arrives k then fill n count k 0 xs buf else buf) (omega arith)
        (length-slice n count k (arrives k) xs buf ∙ hb) ha
        (λ s m h.
          rest (suc s) m (omega arith)
          ∙ ap (λ t. get_elem? all (t + m * n)) {x = k + suc s} {y = k + 1 + s} (omega arith))
        r q hr lt
      ∙ rw
          (slice_reads n count k (arrives k) all xs buf (omega arith) hb ha
            (λ m.
              rest 0 m (omega arith)
              ∙ ap (λ t. get_elem? all (t + m * n)) {x = k + 0} {y = k} (omega arith))
            r q hr lt)
          (from_here k r arrives (get_elem? all (r + q * n)) (get_elem? buf (r + q * n)))
