-- ===== src/Sensor/Interleave/Bytewise.antt =====
-- crates/roboprotocol-core/src/sensor.rs: the loops that put slices back, on bytes and on elements.
use robotele.Prelude.{
  ℕ, zero, suc, ◌+◌, ◌*◌, ◌%◌, ◌<◌, ◌≡◌, refl, sym, ap, ◌∙◌, Bool, true, false, Option, none, some,
  List, [], ◌∷◌, ◌++◌, map, arith, leb, Bool-cases, inl, inr, if◌then◌else◌, length,
}
use robotele.Prelude.Positions.{set, replicate, length-set, map-replicate}
use robotele.Sensor.Interleave.{extend_at, deal, place, place_all}
use robotele.Sensor.Interleave.Elements.{
  concat, AllSized, AllSized-set, copy_at-concat, chunks_exact-concat,
}
use robotele.Sensor.Interleave.Dealt.{single, deal-concat}
use robotele.Sensor.Interleave.Placed.{fill, fill_all, length-fill}

-- The slots of a frame whose slice `k` arrives where `arrives k`.
abbrev pub received : (ℕ → Bool) → ℕ → List (List ℕ) → List (Option (List ℕ))
received arrives k [] = []
received arrives k (s ∷ slices) =
    (if arrives k then some s else none) ∷ received arrives (k + 1) slices

abbrev pub marked : List (List ℕ) → List Bool
marked xs = map (λ _. true) xs

module _ {ℓ} {A : Type ℓ} (n count k : ℕ) (arrives : ℕ → Bool) (xs : List A)
    (slices : List (List A)) where
  fill_all_some :
      (buf : List A)
      → arrives k ≡ true
      → fill_all n count k arrives (xs ∷ slices) buf
        ≡ fill_all n count (k + 1) arrives slices (fill n count k 0 xs buf)
  unfolding fill_all
  fill_all_some buf e = rw e

  fill_all_none :
      (buf : List A)
      → arrives k ≡ false
      → fill_all n count k arrives (xs ∷ slices) buf ≡ fill_all n count (k + 1) arrives slices buf
  unfolding fill_all
  fill_all_none buf e = rw e

fill_all_nil {ℓ} :
    {A : Type ℓ} (n count k : ℕ) (arrives : ℕ → Bool) (buf : List A)
    → fill_all n count k arrives [] buf ≡ buf
unfolding fill_all
fill_all_nil n count k arrives buf = refl

-- Every slice's elements have their size.
abbrev pub AllSlices : ℕ → List (List (List ℕ)) → Type 0
AllSlices size [] = Unit
AllSlices size (s ∷ slices) = AllSized size s × AllSlices size slices

module _ (size : ℕ) (n count : ℕ) where
  fill-AllSized :
      (k j : ℕ) (xs buf : List (List ℕ))
      → AllSized size xs
      → AllSized size buf
      → AllSized size (fill n count k j xs buf)
  unfolding fill
  fill-AllSized k j [] buf h hb = hb
  fill-AllSized k j (x ∷ xs) buf h hb = elim (Bool-cases (leb count (k + j * n))) [
    | inl e ↦ rw e hb
    | inr e ↦ rw e (
        fill-AllSized k (j + 1) xs (set buf (k + j * n) x) h.1
          (AllSized-set size buf (k + j * n) x hb h.0))
  ]

  -- The loop over bytes is the loop over elements.
  place-fill :
      (k j : ℕ) (xs buf : List (List ℕ)) (p : List Bool)
      → AllSized size xs
      → AllSized size buf
      → length buf ≡ count
      → place n size count k j xs (record { bytes = concat buf; present = p }) ≡ record {
        bytes = concat (fill n count k j xs buf);
        present = fill n count k j (marked xs) p;
      }
  unfolding place fill
  place-fill k j [] buf p h hb hl = refl
  place-fill k j (x ∷ xs) buf p h hb hl = elim (Bool-cases (leb count (k + j * n))) [
    | inl e ↦ rw e
    | inr e ↦
        rw (e, copy_at-concat size buf (k + j * n) x hb h.0 (ground (arith, e, hl)))
          (place-fill k (j + 1) xs (set buf (k + j * n) x) (set p (k + j * n) true) h.1
            (AllSized-set size buf (k + j * n) x hb h.0) (length-set buf (k + j * n) x ∙ hl))
  ]

  pub place_all-fill_all :
      (k : ℕ) (arrives : ℕ → Bool) (slices : List (List (List ℕ))) (buf : List (List ℕ))
      (p : List Bool)
      → 0 < size
      → AllSlices size slices
      → AllSized size buf
      → length buf ≡ count
      → place_all n size count k
          (received arrives k (map concat slices))
          (record { bytes = concat buf; present = p })
        ≡ record {
          bytes = concat (fill_all n count k arrives slices buf);
          present = fill_all n count k arrives (map marked slices) p;
        }
  unfolding place_all
  place_all-fill_all k arrives [] buf p pos h hb hl =
      rw (fill_all_nil n count k arrives buf, fill_all_nil n count k arrives p)
  place_all-fill_all k arrives (s ∷ slices) buf p pos h hb hl = elim (Bool-cases (arrives k)) [
    | inr e ↦
        rw
          (
            e,
            fill_all_none n count k arrives s slices buf e,
            fill_all_none n count k arrives (marked s) (map marked slices) p e,
          )
          (place_all-fill_all (k + 1) arrives slices buf p pos h.1 hb hl)
    | inl e ↦
        rw
          (
            e,
            fill_all_some n count k arrives s slices buf e,
            fill_all_some n count k arrives (marked s) (map marked slices) p e,
            chunks_exact-concat size s pos h.0,
            place-fill k 0 s buf p h.0 hb hl,
          )
          (place_all-fill_all (k + 1) arrives slices (fill n count k 0 s buf)
            (fill n count k 0 (marked s) p) pos h.1 (fill-AllSized k 0 s buf h.0 hb)
            (length-fill n count k 0 s buf ∙ hl))
  ]

-- The elements of a frame, dealt over `n` slices.
unfoldable pub dealt : ℕ → List (List ℕ) → List (List (List ℕ))
dealt n elements = deal n 0 (map single elements) (replicate n [])

pub concat-dealt :
    (n : ℕ) (elements : List (List ℕ))
    → deal n 0 elements (replicate n []) ≡ map concat (dealt n elements)
unfolding dealt
concat-dealt n elements =
    ap (deal n 0 elements) (sym (map-replicate concat n []))
    ∙ deal-concat n 0 elements (replicate n [])

AllSized-push :
    (size : ℕ) (b : List (List ℕ)) (x : List ℕ)
    → AllSized size b
    → length x ≡ size
    → AllSized size (b ++ single x)
AllSized-push size [] x h k = (k, tt)
AllSized-push size (y ∷ b) x h k = (h.0, AllSized-push size b x h.1 k)

AllSlices-extend_at :
    (size k : ℕ) (x : List ℕ) (s : List (List (List ℕ)))
    → AllSlices size s
    → length x ≡ size
    → AllSlices size (extend_at k (single x) s)
unfolding extend_at
AllSlices-extend_at size k x [] h e = tt
AllSlices-extend_at size zero x (b ∷ s) h e = (AllSized-push size b x h.0 e, h.1)
AllSlices-extend_at size (suc k) x (b ∷ s) h e = (h.0, AllSlices-extend_at size k x s h.1 e)

dealt-AllSlices_from :
    (size n i : ℕ) (elements : List (List ℕ)) (s : List (List (List ℕ)))
    → AllSized size elements
    → AllSlices size s
    → AllSlices size (deal n i (map single elements) s)
unfolding deal
dealt-AllSlices_from size n i [] s h hs = hs
dealt-AllSlices_from size n i (x ∷ elements) s h hs =
    dealt-AllSlices_from size n (i + 1) elements (extend_at (i % n) (single x) s) h.1
      (AllSlices-extend_at size (i % n) x s hs h.0)

AllSlices-none : (size n : ℕ) → AllSlices size (replicate n [])
unfolding replicate
AllSlices-none size zero = tt
AllSlices-none size (suc n) = (tt, AllSlices-none size n)

pub dealt-AllSlices :
    (size n : ℕ) (elements : List (List ℕ))
    → AllSized size elements
    → AllSlices size (dealt n elements)
unfolding dealt
dealt-AllSlices size n elements h =
    dealt-AllSlices_from size n 0 elements (replicate n []) h (AllSlices-none size n)
