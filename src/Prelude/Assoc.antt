-- ===== src/Prelude/Assoc.antt =====
-- Hash maps, tree maps and hash sets as association lists, and the equality test of their keys.
use Prim.Native.Nat.{ℕ, ◌+◌, ◌≤◌, ◌<◌}
use mathlib.Core.Path.{◌≡◌, refl, subst}
use mathlib.Core.Logic.{◌↔◌, inl, inr}
use mathlib.Core.Bool.{Bool, true, false}
use mathlib.Core.Option.{Option, none, some}
use mathlib.Core.List.{List, [], ◌∷◌}
use native.Mathlib.Omega.{arith}
use robotele.Prelude.Tests.{◌==◌, ==_iff, if◌then◌else◌, Bool-cases}
use robotele.Prelude.Lists.{length}

pub record Eq {ℓ} (A : Type ℓ) : Type ℓ where
  pub beq : A → A → Bool
  pub beq_iff : (a b : A) → (beq a b ≡ true) ↔ (a ≡ b)

instance abbrev pub nat_eq : Eq ℕ
nat_eq = record { beq = ◌==◌; beq_iff = ==_iff }

unfoldable pub beq_list : List ℕ → List ℕ → Bool
beq_list [] [] = true
beq_list [] (y ∷ ys) = false
beq_list (x ∷ xs) [] = false
beq_list (x ∷ xs) (y ∷ ys) = if x == y then beq_list xs ys else false

pub beq_list_iff : (xs ys : List ℕ) → (beq_list xs ys ≡ true) ↔ (xs ≡ ys)
unfolding beq_list
beq_list_iff [] [] = (λ h. refl, λ h. refl)
beq_list_iff [] (y ∷ ys) = (λ h. cc, λ h. cc)
beq_list_iff (x ∷ xs) [] = (λ h. cc, λ h. cc)
beq_list_iff (x ∷ xs) (y ∷ ys) = (
  λ h. ground (arith, ==_iff x y, beq_list_iff xs ys),
  λ h. ground (arith, ==_iff x y, beq_list_iff xs ys),
)

instance abbrev pub list_eq : Eq (List ℕ)
list_eq = record { beq = beq_list; beq_iff = beq_list_iff }

beq_refl : {K : Type 0} ⦃e : Eq K⦄ (k : K) → e.beq k k ≡ true
beq_refl ⦃e⦄ k = (e.beq_iff k k).1 refl

module _ {K V : Type 0} ⦃e : Eq K⦄ where
  unfoldable pub lookup : K → List (K × V) → Option V
  lookup k [] = none
  lookup k ((j, v) ∷ m) = if e.beq j k then some v else lookup k m

  -- In place of the key's entry, or at the end.
  unfoldable pub insert : K → V → List (K × V) → List (K × V)
  insert k v [] = (k, v) ∷ []
  insert k v ((j, w) ∷ m) = if e.beq j k then (k, v) ∷ m else (j, w) ∷ insert k v m

  -- All entries of the key, of which a map has at most one.
  unfoldable pub remove : K → List (K × V) → List (K × V)
  remove k [] = []
  remove k ((j, w) ∷ m) = if e.beq j k then remove k m else (j, w) ∷ remove k m

  pub lookup-insert_self : (k : K) (v : V) (m : List (K × V)) → lookup k (insert k v m) ≡ some v
  unfolding lookup insert
  lookup-insert_self k v [] = rw (beq_refl k)
  lookup-insert_self k v ((j, w) ∷ m) = ground (arith, beq_refl k, lookup-insert_self k v m)

  pub lookup-insert_ne :
      (k j : K) (v : V) (m : List (K × V))
      → e.beq k j ≡ false
      → lookup j (insert k v m) ≡ lookup j m
  unfolding lookup insert
  lookup-insert_ne k j v [] h = rw h
  lookup-insert_ne k j v ((i, w) ∷ m) h =
      ground (arith, e.beq_iff i k, e.beq_iff i j, e.beq_iff k j, lookup-insert_ne k j v m h)

  pub lookup-remove_self : (k : K) (m : List (K × V)) → lookup k (remove k m) ≡ none
  unfolding lookup remove
  lookup-remove_self k [] = refl
  lookup-remove_self k ((j, w) ∷ m) = ground (arith, lookup-remove_self k m)

  pub lookup-remove_ne :
      (k j : K) (m : List (K × V)) → e.beq k j ≡ false → lookup j (remove k m) ≡ lookup j m
  unfolding lookup remove
  lookup-remove_ne k j [] h = refl
  lookup-remove_ne k j ((i, w) ∷ m) h =
      ground (arith, e.beq_iff i k, e.beq_iff i j, e.beq_iff k j, lookup-remove_ne k j m h)

  pub length-insert : (k : K) (v : V) (m : List (K × V)) → length (insert k v m) ≤ length m + 1
  unfolding insert
  length-insert k v [] = omega arith
  length-insert k v ((j, w) ∷ m) = ground (arith, length-insert k v m)

  pub length-remove : (k : K) (m : List (K × V)) → length (remove k m) ≤ length m
  unfolding remove
  length-remove k [] = omega arith
  length-remove k ((j, w) ∷ m) = ground (arith, length-remove k m)

  -- The size after the removal of a key that is there.
  pub length-remove_present :
      (k : K) (v : V) (m : List (K × V)) → lookup k m ≡ some v → length (remove k m) < length m
  unfolding remove lookup
  length-remove_present k v [] h = cc
  length-remove_present k v ((j, w) ∷ m) h =
      ground (arith, length-remove k m, length-remove_present k v m)

  -- A property of every value, kept by the operations.
  abbrev pub Every : (K → V → Type 0) → List (K × V) → Type 0
  Every P [] = Unit {0}
  Every P ((k, v) ∷ m) = P k v × Every P m

  pub insert-Every :
      (P : K → V → Type 0) (k : K) (v : V) (m : List (K × V))
      → P k v
      → Every P m
      → Every P (insert k v m)
  unfolding insert
  insert-Every P k v [] p h = (p, tt)
  insert-Every P k v ((j, w) ∷ m) p h = elim (Bool-cases (e.beq j k)) [
    | inl q ↦ rw q (p, h.1)
    | inr q ↦ rw q (h.0, insert-Every P k v m p h.1)
  ]

  pub remove-Every :
      (P : K → V → Type 0) (k : K) (m : List (K × V)) → Every P m → Every P (remove k m)
  unfolding remove
  remove-Every P k [] h = tt
  remove-Every P k ((j, w) ∷ m) h = elim (Bool-cases (e.beq j k)) [
    | inl q ↦ rw q (remove-Every P k m h.1)
    | inr q ↦ rw q (h.0, remove-Every P k m h.1)
  ]

  pub lookup-Every :
      (P : K → V → Type 0) (k : K) (v : V) (m : List (K × V))
      → Every P m
      → lookup k m ≡ some v
      → P k v
  unfolding lookup
  lookup-Every P k v [] h q = cc
  lookup-Every P k v ((j, w) ∷ m) h q = elim (Bool-cases (e.beq j k)) [
    | inl s ↦
        let q' : some w ≡ some v = rw s at q in
        let same : w ≡ v = cc in subst (λ x. P x v) ((e.beq_iff j k).0 s) (subst (P j) same h.0)
    | inr s ↦ lookup-Every P k v m h.1 (rw s at q)
  ]
