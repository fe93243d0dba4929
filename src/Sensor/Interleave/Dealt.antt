-- ===== src/Sensor/Interleave/Dealt.antt =====
-- crates/roboprotocol-core/src/sensor.rs: the loop that deals elements over the slices puts
-- element `r + q * n` at place `q` of slice `r`.
use native.Mathlib.Nat.{mod-lt, mod-eq-sub-div-mul, div-mul-le_self}
use mathlib.Core.List.{append_assoc, append-nil}
use native.Mathlib.Decide.{dec_lt}
use robotele.Prelude.{
  ℕ, zero, suc, ◌+◌, ◌*◌, ◌/◌, ◌%◌, ◌-◌, ◌<◌, ◌≤◌, ◌≡◌, ◌≢◌, refl, sym, ap, ◌∙◌, none, some, List,
  [], ◌∷◌, ◌++◌, map, arith, ltb, lt→ltb, ◌==◌, ==_iff, Bool-cases, inl, inr, if◌then◌else◌, length,
  get_elem?, get_or, get_elem?-lt, ◌&&◌, false, suc_not_le,
}
use robotele.Prelude.Positions.{
  replicate, get_elem?-push, length-replicate, get_elem?-none, get_elem?-beyond, row_of, row_mono,
}
use robotele.Sensor.Interleave.{extend_at, deal}
use robotele.Sensor.Interleave.Elements.{concat}

abbrev pub single {ℓ} : {A : Type ℓ} → A → List A
single x = x ∷ []

pub split_row : (n i : ℕ) → i % n + i / n * n ≡ i
split_row n i = omega (arith, mod-eq-sub-div-mul i n, div-mul-le_self i n)

ltb_next : (a i : ℕ) → a ≢ i → ltb a (i + 1) ≡ ltb a i
ltb_next a i h = ground (arith, h)

not_target : (n i r q : ℕ) → 0 < n → r < n → (r == i % n && q == i / n) ≡ false → r + q * n ≢ i
not_target n i r q pos h e w =
    let (same_row, same_place) =
      row_of n r q (i % n) (i / n) h (mod-lt i pos) (w ∙ sym (split_row n i)) in
    ground (arith, same_row, same_place)

module _ {ℓ} {A : Type ℓ} where
  pub length-extend_at :
      (k : ℕ) (x : List A) (s : List (List A)) → length (extend_at k x s) ≡ length s
  unfolding extend_at
  length-extend_at k x [] = refl
  length-extend_at zero x (b ∷ s) = refl
  length-extend_at (suc k) x (b ∷ s) = rw (length-extend_at k x s)

  pub length-deal : (n i : ℕ) (xs s : List (List A)) → length (deal n i xs s) ≡ length s
  unfolding deal
  length-deal n i [] s = refl
  length-deal n i (x ∷ xs) s =
      length-deal n (i + 1) xs (extend_at (i % n) x s) ∙ length-extend_at (i % n) x s

  pub get_or-extend_at :
      (k r : ℕ) (x : List A) (s : List (List A))
      → k < length s
      → get_or (extend_at k x s) r [] ≡ (if r == k then get_or s k [] ++ x else get_or s r [])
  unfolding extend_at
  get_or-extend_at k r x [] h = elim (suc_not_le k h) [ ]
  get_or-extend_at zero zero x (b ∷ s) h = ground arith
  get_or-extend_at zero (suc r) x (b ∷ s) h = ground arith
  get_or-extend_at (suc k) zero x (b ∷ s) h = ground arith
  get_or-extend_at (suc k) (suc r) x (b ∷ s) h = ground (arith, get_or-extend_at k r x s)

  -- Slice `r` holds the elements at `r`, `r + n`, … of those before position `i`.
  abbrev pub DealtTo : (n i : ℕ) → List A → List (List A) → Type ℓ
  DealtTo n i all s =
      (r q : ℕ)
      → r < n
      → get_elem? (get_or s r []) q
        ≡ (if ltb (r + q * n) i then get_elem? all (r + q * n) else none)

  -- The next element's slice holds as many elements as there are full rounds before it.
  length-target :
      (n i : ℕ) (all : List A) (s : List (List A))
      → 0 < n
      → i < length all
      → DealtTo n i all s
      → length (get_or s (i % n) []) ≡ i / n
  length-target n i all s pos lt d =
      let b : List A = get_or s (i % n) [] in
      let row : i % n + i / n * n ≡ i = split_row n i in
      let small : i % n < n = mod-lt i pos in
      let at_most : length b ≤ i / n =
        get_elem?-none b (i / n) (d (i % n) (i / n) small ∙ ground (arith, row)) in
      elim (dec_lt (length b) (i / n)) [
        | no h ↦ omega arith
        | yes h ↦
            let before : i % n + length b * n < i =
              omega (arith, row_mono n (i % n) (length b) (i / n) h small) in
            let empty : none ≡ get_elem? all (i % n + length b * n) =
              sym (get_elem?-beyond b (length b) (omega arith))
              ∙ rw (lt→ltb _ _ before) at (d (i % n) (length b) small) in
            absurd (omega (arith, get_elem?-none all (i % n + length b * n) (sym empty)))
      ]

  keep_read :
      (n i r q : ℕ) (all : List A)
      → r + q * n ≢ i
      → (if ltb (r + q * n) i then get_elem? all (r + q * n) else none)
        ≡ (if ltb (r + q * n) (i + 1) then get_elem? all (r + q * n) else none)
  keep_read n i r q all h =
      ap (λ t. if t then get_elem? all (r + q * n) else none) (sym (ltb_next (r + q * n) i h))

  target_read :
      (n i : ℕ) (all : List A) (x : A) (s : List (List A))
      → 0 < n
      → get_elem? all i ≡ some x
      → DealtTo n i all s
      → (q : ℕ)
      → get_elem? (get_or s (i % n) [] ++ single x) q
        ≡ (if ltb (i % n + q * n) (i + 1) then get_elem? all (i % n + q * n) else none)
  target_read n i all x s pos at d q =
      get_elem?-push (get_or s (i % n) []) x q
      ∙ rw (length-target n i all s pos (get_elem?-lt all i x at) d)
          (elim (Bool-cases (q == i / n)) [
            | inl e ↦
                let here : i % n + q * n ≡ i = rw ((==_iff _ _).0 e) (split_row n i) in
                rw (e, here, lt→ltb i (i + 1) (omega arith), at)
            | inr e ↦ rw e (
                d (i % n) q (mod-lt i pos)
                ∙ keep_read n i (i % n) q all
                    (not_target n i (i % n) q pos (mod-lt i pos) (ground (arith, e))))
          ])

  DealtTo-step :
      (n i : ℕ) (all : List A) (x : A) (s : List (List A))
      → length s ≡ n
      → 0 < n
      → get_elem? all i ≡ some x
      → DealtTo n i all s
      → DealtTo n (i + 1) all (extend_at (i % n) (single x) s)
  DealtTo-step n i all x s len pos at d r q h =
      rw (get_or-extend_at (i % n) r (single x) s (rw len (mod-lt i pos)))
        (elim (Bool-cases (r == i % n)) [
          | inl e ↦ rw (e, (==_iff _ _).0 e) (target_read n i all x s pos at d q)
          | inr e ↦
              rw e (d r q h ∙ keep_read n i r q all (not_target n i r q pos h (ground (arith, e))))
        ])

  deal-DealtTo :
      (n i : ℕ) (all xs : List A) (s : List (List A))
      → length s ≡ n
      → 0 < n
      → ((m : ℕ) → get_elem? xs m ≡ get_elem? all (i + m))
      → DealtTo n i all s
      → (r q : ℕ) → r < n
      → get_elem? (get_or (deal n i (map single xs) s) r []) q ≡ get_elem? all (r + q * n)
  unfolding deal
  deal-DealtTo n i all [] s len pos rest d r q h = elim (dec_lt (r + q * n) i) [
    | yes lt ↦ d r q h ∙ rw (lt→ltb _ _ lt)
    | no ge ↦
        d r q h
        ∙ ground (arith, ge)
        ∙ rest (r + q * n - i)
        ∙ ap (get_elem? all) {x = i + (r + q * n - i)} {y = r + q * n} (omega arith)
  ]
  deal-DealtTo n i all (x ∷ xs) s len pos rest d r q h =
      deal-DealtTo n (i + 1) all xs (extend_at (i % n) (single x) s)
        (length-extend_at (i % n) (single x) s ∙ len) pos
        (λ m. rest (suc m) ∙ ap (get_elem? all) {x = i + suc m} {y = i + 1 + m} (omega arith))
        (DealtTo-step n i all x s len pos
          (ap (get_elem? all) {x = i} {y = i + 0} (omega arith) ∙ sym (rest 0)) d)
        r q h

  get_or-replicate : (n r : ℕ) → get_or (replicate {A = List A} n []) r [] ≡ []
  unfolding replicate
  get_or-replicate zero r = refl
  get_or-replicate (suc n) zero = refl
  get_or-replicate (suc n) (suc r) = get_or-replicate n r

  concat-push : (b : List (List A)) (x : List A) → concat (b ++ single x) ≡ concat b ++ x
  concat-push [] x = append-nil x
  concat-push (y ∷ b) x = rw (concat-push b x) (sym (append_assoc y (concat b) x))

  -- Dealing from the start leaves element `r + q * n` at place `q` of slice `r`.
  pub deal_reads :
      (n : ℕ) (all : List A)
      → 0 < n
      → (r q : ℕ) → r < n
      → get_elem? (get_or (deal n 0 (map single all) (replicate n [])) r []) q
        ≡ get_elem? all (r + q * n)
  deal_reads n all pos =
      deal-DealtTo n 0 all all (replicate n []) (length-replicate n []) pos
        (λ m. ap (get_elem? all) {x = m} {y = 0 + m} (omega arith))
        (λ r q h. rw (get_or-replicate n r) (ground arith))

  extend_at-concat :
      (k : ℕ) (x : List A) (s : List (List (List A)))
      → extend_at k x (map concat s) ≡ map concat (extend_at k (single x) s)
  unfolding extend_at
  extend_at-concat k x [] = refl
  extend_at-concat zero x (b ∷ s) = ap (λ y. y ∷ map concat s) (sym (concat-push b x))
  extend_at-concat (suc k) x (b ∷ s) = rw (extend_at-concat k x s)

  -- Dealing bytes is dealing elements.
  pub deal-concat :
      (n i : ℕ) (xs : List (List A)) (s : List (List (List A)))
      → deal n i xs (map concat s) ≡ map concat (deal n i (map single xs) s)
  unfolding deal
  deal-concat n i [] s = refl
  deal-concat n i (x ∷ xs) s =
      rw (extend_at-concat (i % n) x s) (deal-concat n (i + 1) xs (extend_at (i % n) (single x) s))
