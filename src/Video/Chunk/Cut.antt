-- ===== src/Video/Chunk/Cut.antt =====
-- The pieces of a NAL unit: how many, how long, and that they make it up.
use robotele.Prelude.{
  ℕ, zero, suc, ◌≤◌, ◌<◌, ◌≡◌, refl, ap, ◌∙◌, List, [], ◌∷◌, ◌++◌, arith, length, take, drop,
  take-append-drop, length-drop,
}
use robotele.Video.Chunk.{max_chunk_payload, chunks_fuel, chunks, div_ceil}

abbrev pub concat : List (List ℕ) → List ℕ
concat [] = []
concat (p ∷ ps) = p ++ concat ps

abbrev pub AllShort : ℕ → List (List ℕ) → Type 0
AllShort size [] = Unit {0}
AllShort size (p ∷ ps) = (length p ≤ size) × AllShort size ps

concat-chunks_fuel :
    (fuel size : ℕ) (xs : List ℕ)
    → 0 < size
    → length xs ≤ fuel
    → concat (chunks_fuel fuel size xs) ≡ xs
unfolding chunks_fuel
concat-chunks_fuel zero size [] p h = refl
concat-chunks_fuel zero size (x ∷ xs) p h = elim h [ ]
concat-chunks_fuel (suc fuel) size [] p h = refl
concat-chunks_fuel (suc fuel) size (x ∷ xs) p h =
    ap (λ r. take size (x ∷ xs) ++ r)
      (concat-chunks_fuel fuel size (drop size (x ∷ xs)) p
        (omega (arith, length-drop size (x ∷ xs))))
    ∙ take-append-drop size (x ∷ xs)

pub concat-chunks : (xs : List ℕ) → concat (chunks max_chunk_payload xs) ≡ xs
unfolding chunks
concat-chunks xs = concat-chunks_fuel (length xs) max_chunk_payload xs (omega arith) (omega arith)

length-chunks_fuel :
    (fuel : ℕ) (xs : List ℕ)
    → length xs ≤ fuel
    → length (chunks_fuel fuel max_chunk_payload xs) ≡ div_ceil (length xs) max_chunk_payload
unfolding chunks_fuel div_ceil
length-chunks_fuel zero [] h = omega arith
length-chunks_fuel zero (x ∷ xs) h = elim h [ ]
length-chunks_fuel (suc fuel) [] h = omega arith
length-chunks_fuel (suc fuel) (x ∷ xs) h = omega (
  arith,
  length-drop max_chunk_payload (x ∷ xs),
  length-chunks_fuel fuel (drop max_chunk_payload (x ∷ xs))
      (omega (arith, length-drop max_chunk_payload (x ∷ xs))),
)

pub length-chunks :
    (xs : List ℕ) → length (chunks max_chunk_payload xs) ≡ div_ceil (length xs) max_chunk_payload
unfolding chunks
length-chunks xs = length-chunks_fuel (length xs) xs (omega arith)
