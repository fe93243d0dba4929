-- ===== src/Sensor/Interleave/Restored.antt =====
-- crates/roboprotocol-core/src/sensor.rs: a frame cut into slices, of which some are lost, and put
-- back in order.
use native.Mathlib.Nat.{mod-lt, div-mul-le_self}
use native.Mathlib.Decide.{dec_lt}
use mathlib.Core.Option
use robotele.Prelude.{
  ℕ, zero, suc, ◌+◌, ◌*◌, ◌/◌, ◌%◌, ◌<◌, ◌≡◌, refl, sym, ap, ◌∙◌, Bool, true, false, Option, none,
  some, List, [], ◌∷◌, map, arith, leb, ◌==◌, Bool-cases, inl, inr, Option-cases, lt→ltb,
  if◌then◌else◌, length, get_elem?, get_or,
}
use robotele.Prelude.Positions.{
  replicate, length-replicate, list_ext, get_elem?-map, get_elem?-none, get_elem?-beyond,
  get_elem?-replicate, length-map,
}
use robotele.Prelude.Result.{ok}
use robotele.Sensor.Interleave.{
  AssembledFrame, interleave, chunks_exact, place_all, deinterleave, blank,
}
use robotele.Sensor.Interleave.Elements.{
  concat, AllSized, AllSized-replicate, concat-replicate, cut-AllSized, length-cut,
}
use robotele.Sensor.Interleave.Dealt.{single, deal_reads, length-deal, split_row}
use robotele.Sensor.Interleave.Accepted.{interleave_answer, slice_count_answer}
use robotele.Sensor.Interleave.Placed.{fill, fill_all, fill_all_reads, length-fill}
use robotele.Sensor.Interleave.Bytewise.{
  dealt, concat-dealt, dealt-AllSlices, received, marked, place_all-fill_all,
}

-- Element `i` of the frame is there where its slice `i % n` arrived, and is `lost` where not.
abbrev pub surviving {ℓ} : {A : Type ℓ} → ℕ → (ℕ → Bool) → A → ℕ → List A → List A
surviving n arrives lost i [] = []
surviving n arrives lost i (x ∷ xs) =
    (if arrives (i % n) then x else lost) ∷ surviving n arrives lost (i + 1) xs

abbrev or_lost {ℓ} : {A : Type ℓ} → Bool → A → Option A → Option A
or_lost here lost none = none
or_lost here lost (some x) = some (if here then x else lost)

not_zero : (n : ℕ) → 0 < n → (n == 0) ≡ false
not_zero n h = ground arith

leb_zero : (r : ℕ) → leb 0 r ≡ true
leb_zero r = ground arith

module _ {ℓ} {A : Type ℓ} (n : ℕ) (arrives : ℕ → Bool) (lost : A) where
  surviving_reads :
      (i m : ℕ) (xs : List A)
      → get_elem? (surviving n arrives lost i xs) m
        ≡ or_lost (arrives ((i + m) % n)) lost (get_elem? xs m)
  surviving_reads i m [] = refl
  surviving_reads i zero (x ∷ xs) =
      ap (λ t. some (if arrives (t % n) then x else lost)) {x = i} {y = i + 0} (omega arith)
  surviving_reads i (suc m) (x ∷ xs) =
      surviving_reads (i + 1) m xs
      ∙ ap (λ t. or_lost (arrives (t % n)) lost (get_elem? xs m)) {x = i + 1 + m} {y = i + suc m}
          (omega arith)

  length-fill_all :
      (count k : ℕ) (slices : List (List A)) (buf : List A)
      → length (fill_all n count k arrives slices buf) ≡ length buf
  unfolding fill_all
  length-fill_all count k [] buf = refl
  length-fill_all count k (s ∷ slices) buf =
      length-fill_all count (k + 1) slices (if arrives k then fill n count k 0 s buf else buf)
      ∙ elim (Bool-cases (arrives k)) [
        | inl e ↦ rw e (length-fill n count k 0 s buf)
        | inr e ↦ rw e
      ]

  blank_reads :
      (all : List A) (i : ℕ) (here : Bool)
      → i < length all
      → (if here then get_elem? all i else get_elem? (replicate (length all) lost) i)
        ≡ or_lost here lost (get_elem? all i)
  blank_reads all i here lt = elim (Option-cases (get_elem? all i)) [
    | inl e ↦ absurd (omega (arith, get_elem?-none all i e))
    | inr (x, e) ↦ rw (get_elem?-replicate (length all) i lost, lt→ltb _ _ lt, e) (choose here x)
  ]
    where
      choose :
          (here : Bool) (x : A)
          → (if here then some x else some lost) ≡ some (if here then x else lost)
      choose true x = refl
      choose false x = refl

  inside :
      (slices : List (List A)) (all : List A)
      → 0 < n
      → length slices ≡ n
      → ((r q : ℕ) → r < n → get_elem? (get_or slices r []) q ≡ get_elem? all (r + q * n))
      → (i : ℕ) → i < length all
      → get_elem? (fill_all n (length all) 0 arrives slices (replicate (length all) lost)) i
        ≡ or_lost (arrives ((0 + i) % n)) lost (get_elem? all i)
  inside slices all pos len reads i lt =
      let row : i % n + i / n * n ≡ i = split_row n i in
      rw row at (
        fill_all_reads n (length all) 0 arrives all slices (replicate (length all) lost)
          (omega (arith, len)) (length-replicate (length all) lost) refl
          (λ s m h.
            reads s m (omega (arith, len))
            ∙ ap (λ t. get_elem? all (t + m * n)) {x = s} {y = 0 + s} (omega arith))
          (i % n) (i / n) (mod-lt i pos) (omega arith))
      ∙ rw (leb_zero (i % n)) (blank_reads all i (arrives (i % n)) lt)
      ∙ ap (λ t. or_lost (arrives (t % n)) lost (get_elem? all i)) {x = i} {y = 0 + i} (omega arith)

  -- Dealt out over `n` slices and put back on a blank buffer, the elements survive as their slices.
  dealt-restored :
      (slices : List (List A)) (all : List A)
      → 0 < n
      → length slices ≡ n
      → ((r q : ℕ) → r < n → get_elem? (get_or slices r []) q ≡ get_elem? all (r + q * n))
      → fill_all n (length all) 0 arrives slices (replicate (length all) lost)
        ≡ surviving n arrives lost 0 all
  dealt-restored slices all pos len reads = list_ext _ _ (λ i. elim (dec_lt i (length all)) [
    | no beyond ↦
        get_elem?-beyond _ i (
          rw
            (
              length-fill_all (length all) 0 slices (replicate (length all) lost),
              length-replicate (length all) lost,
            )
            (omega arith))
        ∙ sym (
            surviving_reads 0 i all
            ∙ ap (or_lost (arrives ((0 + i) % n)) lost) (get_elem?-beyond all i (omega arith)))
    | yes lt ↦ inside slices all pos len reads i lt ∙ sym (surviving_reads 0 i all)
  ])

-- Slice `r` has element `r + q * n` at its place `q`.
dealt_reads :
    (n : ℕ) (elements : List (List ℕ))
    → 0 < n
    → (r q : ℕ) → r < n
    → get_elem? (get_or (dealt n elements) r []) q ≡ get_elem? elements (r + q * n)
unfolding dealt
dealt_reads n elements pos r q h = deal_reads n elements pos r q h

length-dealt : (n : ℕ) (elements : List (List ℕ)) → length (dealt n elements) ≡ n
unfolding dealt
length-dealt n elements =
    length-deal n 0 (map single elements) (replicate n []) ∙ length-replicate n []

get_or-map-marked :
    (s : List (List (List ℕ))) (r : ℕ) → get_or (map marked s) r [] ≡ marked (get_or s r [])
get_or-map-marked [] r = refl
get_or-map-marked (b ∷ s) zero = refl
get_or-map-marked (b ∷ s) (suc r) = get_or-map-marked s r

marked_reads :
    (n : ℕ) (elements : List (List ℕ))
    → 0 < n
    → (r q : ℕ) → r < n
    → get_elem? (get_or (map marked (dealt n elements)) r []) q
      ≡ get_elem? (marked elements) (r + q * n)
marked_reads n elements pos r q h =
    rw (get_or-map-marked (dealt n elements) r)
      (get_elem?-map (λ _. true) (get_or (dealt n elements) r []) q)
    ∙ ap (Option.map (λ _. true)) (dealt_reads n elements pos r q h)
    ∙ sym (get_elem?-map (λ _. true) elements (r + q * n))

-- The loop over the received slices, on a frame given as its elements.
placed :
    (n size : ℕ) (arrives : ℕ → Bool) (elements : List (List ℕ))
    → 0 < n
    → 0 < size
    → AllSized size elements
    → place_all n size
        (length elements)
        0
        (received arrives 0 (map concat (dealt n elements)))
        (blank size (length elements))
      ≡ record {
        bytes = concat (surviving n arrives (replicate size 0) 0 elements);
        present = surviving n arrives false 0 (marked elements);
      }
placed n size arrives elements pos hs sized =
    ap
      (λ b.
        place_all n size (length elements) 0 (received arrives 0 (map concat (dealt n elements)))
          (record { bytes = b; present = replicate (length elements) false }))
      (sym (concat-replicate (length elements) size))
    ∙ place_all-fill_all size n (length elements) 0 arrives (dealt n elements)
        (replicate (length elements) (replicate size 0)) (replicate (length elements) false) hs
        (dealt-AllSlices size n elements sized)
        (AllSized-replicate size (length elements) (replicate size 0) (length-replicate size 0))
        (length-replicate (length elements) (replicate size 0))
    ∙ rw (
      dealt-restored n arrives (replicate size 0) (dealt n elements) elements pos
          (length-dealt n elements) (dealt_reads n elements pos),
      rw (length-map (λ (_ : List ℕ). true) elements) at (
          dealt-restored n arrives false (map marked (dealt n elements)) (marked elements) pos
            (length-map marked (dealt n elements) ∙ length-dealt n elements)
            (marked_reads n elements pos)),
    )

length-received :
    (arrives : ℕ → Bool) (k : ℕ) (payloads : List (List ℕ))
    → length (received arrives k payloads) ≡ length payloads
length-received arrives k [] = refl
length-received arrives k (s ∷ payloads) = rw (length-received arrives (k + 1) payloads)

whole_elements :
    (size : ℕ) (elements : List ℕ)
    → (length (chunks_exact size elements) ≡ length elements / size)
      × AllSized size (chunks_exact size elements)
unfolding chunks_exact
whole_elements size elements = (
  length-cut size (length elements / size) elements,
  cut-AllSized size (length elements / size) elements (div-mul-le_self (length elements) size),
)

-- A cut frame has a positive number of slices, which its elements are dealt over.
interleave-dealt :
    (elements : List ℕ) (size limit : ℕ) (payloads : List (List ℕ))
    → interleave elements size limit ≡ ok payloads
    → (n : ℕ) × (0 < n)
      × (0 < size)
      × (payloads ≡ map concat (dealt n (chunks_exact size elements)))
      × (length payloads ≡ n)
interleave-dealt elements size limit payloads h =
    let (n, answer, whole, cut) = interleave_answer elements size limit payloads h in
    let (pos, per, is_max, bound) =
      slice_count_answer (length elements / size) size limit n answer in
    (
      n,
      omega (arith, is_max),
      pos,
      cut ∙ concat-dealt n (chunks_exact size elements),
      ap length cut
          ∙ length-deal n 0 (chunks_exact size elements) (replicate n [])
          ∙ length-replicate n [],
    )

-- A frame that was cut into slices, of which those arrive that `arrives` names.
abbrev pub partial_frame :
    (sensor_id frame_seq capture_time_us : ℕ) → (ℕ → Bool) → List (List ℕ) → AssembledFrame
partial_frame sensor_id frame_seq capture_time_us arrives payloads = record {
  sensor_id = sensor_id;
  frame_seq = frame_seq;
  capture_time_us = capture_time_us;
  slices = received arrives 0 payloads;
}

module _ (sensor_id frame_seq capture_time_us : ℕ) (arrives : ℕ → Bool) (elements : List ℕ)
    (size limit : ℕ) (payloads : List (List ℕ)) where
  -- Whichever slices of a frame arrive, putting it back in order gives every element of an arrived
  -- slice in its original place, marked present, and zeros, marked absent, for the elements of the
  -- others: element `i` of a frame in `n` slices is lost only with slice `i % n`.
  pub deinterleave-interleave :
      interleave elements size limit ≡ ok payloads
      → deinterleave
          (partial_frame sensor_id frame_seq capture_time_us arrives payloads)
          size
          (length elements / size)
        ≡ record {
          bytes = concat (
              surviving
                (length payloads)
                arrives
                (replicate size 0)
                0
                (chunks_exact size elements));
          present =
              surviving (length payloads) arrives false 0 (marked (chunks_exact size elements));
        }
  unfolding deinterleave
  deinterleave-interleave h =
      let (n, pos, hs, dealt_out, count) = interleave-dealt elements size limit payloads h in
      let (whole, sized) = whole_elements size elements in
      rw (length-received arrives 0 payloads, not_zero size hs, ← whole, count, dealt_out)
        (placed n size arrives (chunks_exact size elements) pos hs sized)
