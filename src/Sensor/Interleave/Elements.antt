-- ===== src/Sensor/Interleave/Elements.antt =====
-- crates/roboprotocol-core/src/sensor.rs: a byte string read as elements of one size.
use native.Mathlib.Nat.{mul-div_cancel, add_assoc, add-div_left, zero-div}
use mathlib.Core.List.{append_assoc}
use robotele.Prelude.{
  ℕ, zero, suc, ◌+◌, ◌*◌, ◌/◌, ◌<◌, ◌≤◌, ◌≡◌, refl, sym, ap, ◌∙◌, List, [], ◌∷◌, ◌++◌, arith,
  length, take, drop, take-append, drop-append, take-append-drop, length-append, length-take,
  length-drop, suc_not_le,
}
use robotele.Prelude.Positions.{set, replicate, replicate-append}
use robotele.Sensor.Interleave.{cut, chunks_exact, copy_at}

abbrev pub concat {ℓ} : {A : Type ℓ} → List (List A) → List A
concat [] = []
concat (x ∷ xs) = x ++ concat xs

-- Every element has `size` bytes.
abbrev pub AllSized : ℕ → List (List ℕ) → Type 0
AllSized size [] = Unit
AllSized size (x ∷ xs) = (length x ≡ size) × AllSized size xs

module _ (size : ℕ) where
  pub length-concat :
      (xs : List (List ℕ)) → AllSized size xs → length (concat xs) ≡ length xs * size
  length-concat [] h = omega arith
  length-concat (x ∷ xs) h = grind (arith, length-append x (concat xs), length-concat xs h.1)

  pub cut-concat : (xs : List (List ℕ)) → AllSized size xs → cut (length xs) size (concat xs) ≡ xs
  unfolding cut
  cut-concat [] h = refl
  cut-concat (x ∷ xs) h =
      rw (← h.0, take-append x (concat xs), drop-append x (concat xs), h.0, cut-concat xs h.1)

  pub chunks_exact-concat :
      (xs : List (List ℕ)) → 0 < size → AllSized size xs → chunks_exact size (concat xs) ≡ xs
  unfolding chunks_exact
  chunks_exact-concat xs pos h =
      rw (length-concat xs h, mul-div_cancel (length xs) pos) (cut-concat xs h)

  pub cut-AllSized : (n : ℕ) (xs : List ℕ) → n * size ≤ length xs → AllSized size (cut n size xs)
  unfolding cut
  cut-AllSized zero xs h = tt
  cut-AllSized (suc n) xs h = (
    length-take size xs ∙ grind arith,
    cut-AllSized n (drop size xs) (grind (arith, length-drop size xs)),
  )

  pub length-cut : (n : ℕ) (xs : List ℕ) → length (cut n size xs) ≡ n
  unfolding cut
  length-cut zero xs = refl
  length-cut (suc n) xs = rw (length-cut n (drop size xs))

  pub concat-cut : (n : ℕ) (xs : List ℕ) → length xs ≡ n * size → concat (cut n size xs) ≡ xs
  unfolding cut
  concat-cut zero [] h = refl
  concat-cut zero (x ∷ xs) h = absurd (omega arith)
  concat-cut (suc n) xs h =
      rw (concat-cut n (drop size xs) (grind (arith, length-drop size xs)))
        (take-append-drop size xs)

  pub AllSized-replicate : (n : ℕ) (x : List ℕ) → length x ≡ size → AllSized size (replicate n x)
  unfolding replicate
  AllSized-replicate zero x h = tt
  AllSized-replicate (suc n) x h = (h, AllSized-replicate n x h)

  pub AllSized-set :
      (xs : List (List ℕ)) (i : ℕ) (x : List ℕ)
      → AllSized size xs
      → length x ≡ size
      → AllSized size (set xs i x)
  unfolding set
  AllSized-set [] i x h k = tt
  AllSized-set (y ∷ xs) zero x h k = (k, h.1)
  AllSized-set (y ∷ xs) (suc i) x h k = (h.0, AllSized-set xs i x h.1 k)

pub concat-replicate :
    (n size : ℕ) → concat {A = ℕ} (replicate n (replicate size 0)) ≡ replicate (n * size) 0
unfolding replicate
concat-replicate zero size = ap (λ k. replicate k 0) {x = 0} {y = 0 * size} (omega arith)
concat-replicate (suc n) size =
    ap (λ xs. replicate size 0 ++ xs) (concat-replicate n size)
    ∙ replicate-append size (n * size) 0
    ∙ ap (λ k. replicate k 0) {x = size + n * size} {y = suc n * size} (grind arith)

take-past : (m : ℕ) (xs ys : List ℕ) → take (length xs + m) (xs ++ ys) ≡ xs ++ take m ys
take-past m [] ys = ap (λ k. take k ys) {x = 0 + m} {y = m} (omega arith)
take-past m (x ∷ xs) ys =
    ap (λ k. take k (x ∷ xs ++ ys)) {x = suc (length xs) + m} {y = suc (length xs + m)}
      (omega arith)
    ∙ ap (λ zs. x ∷ zs) (take-past m xs ys)

drop-past : (m : ℕ) (xs ys : List ℕ) → drop (length xs + m) (xs ++ ys) ≡ drop m ys
drop-past m [] ys = ap (λ k. drop k ys) {x = 0 + m} {y = m} (omega arith)
drop-past m (x ∷ xs) ys =
    ap (λ k. drop k (x ∷ xs ++ ys)) {x = suc (length xs) + m} {y = suc (length xs + m)}
      (omega arith)
    ∙ drop-past m xs ys

copy_at-front : (x y ys : List ℕ) → length x ≡ length y → copy_at 0 x (y ++ ys) ≡ x ++ ys
unfolding copy_at
copy_at-front x y ys h =
    ap (λ k. x ++ drop k (y ++ ys)) {x = 0 + length x} {y = length y} (omega arith)
    ∙ ap (λ zs. x ++ zs) (drop-append y ys)

copy_at-past : (m : ℕ) (x y ys : List ℕ) → copy_at (length y + m) x (y ++ ys) ≡ y ++ copy_at m x ys
unfolding copy_at
copy_at-past m x y ys =
    rw (take-past m y ys, add_assoc (length y) m (length x), drop-past (m + length x) y ys)
      (append_assoc y (take m ys) (x ++ drop (m + length x) ys))

-- Writing an element's bytes at its offset is writing the element at its place.
pub copy_at-concat :
    (size : ℕ) (xs : List (List ℕ)) (i : ℕ) (x : List ℕ)
    → AllSized size xs
    → length x ≡ size
    → i < length xs
    → copy_at (i * size) x (concat xs) ≡ concat (set xs i x)
unfolding set
copy_at-concat size [] i x h k lt = elim (suc_not_le i lt) [ ]
copy_at-concat size (y ∷ xs) zero x h k lt =
    ap (λ o. copy_at o x (y ++ concat xs)) {x = 0 * size} {y = 0} (omega arith)
    ∙ copy_at-front x y (concat xs) (k ∙ sym h.0)
copy_at-concat size (y ∷ xs) (suc i) x h k lt =
    ap (λ o. copy_at o x (y ++ concat xs)) {x = suc i * size} {y = length y + i * size}
      (grind (arith, h.0))
    ∙ copy_at-past (i * size) x y (concat xs)
    ∙ ap (λ zs. y ++ zs) (copy_at-concat size xs i x h.1 k (omega arith))

-- The first element of some bytes.
pub chunks_exact-append :
    (size : ℕ) (e out : List ℕ)
    → 0 < size
    → length e ≡ size
    → chunks_exact size (e ++ out) ≡ e ∷ chunks_exact size out
unfolding chunks_exact cut
chunks_exact-append size e out h0 h =
    let count : length (e ++ out) / size ≡ suc (length out / size) =
      ap (λ n. n / size) (length-append e out ∙ omega (arith, h))
      ∙ add-div_left (length out) h0
      ∙ omega arith in
    rw (count, ← h, take-append e out, drop-append e out)

pub chunks_exact-nil : (size : ℕ) → chunks_exact size [] ≡ []
unfolding chunks_exact cut
chunks_exact-nil size = ap (λ n. cut n size []) (zero-div size)
