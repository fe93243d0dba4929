-- ===== src/Video/Reassembler/Entry.antt =====
-- One pending NAL unit against the pieces that its sender cut.
use robotele.Prelude.{
  ℕ, zero, suc, ◌≤◌, ◌≡◌, ◌⊎◌, inl, refl, ap, true, Option, none, some, List, [], ◌∷◌, arith, ◌==◌,
  length, get_elem?, get_elem?-lt,
}
use robotele.Video.Chunk.{ChunkHeader}
use robotele.Video.Chunk.Cut.{concat}
use robotele.Video.Reassembler.{
  PendingNal, fresh, pad, is_free, put, store, all_some, is_complete, flatten,
}

-- The slots that are filled hold the piece of their index, and there are no more slots than pieces.
abbrev pub Fits : List (Option (List ℕ)) → List (List ℕ) → Type 0
Fits [] ps = Unit {0}
Fits (c ∷ cs) [] = ⊥
Fits (none ∷ cs) (p ∷ ps) = Fits cs ps
Fits (some x ∷ cs) (p ∷ ps) = (x ≡ p) × Fits cs ps

abbrev pub filled : List (Option (List ℕ)) → ℕ
filled [] = 0
filled (none ∷ cs) = filled cs
filled (some x ∷ cs) = suc (filled cs)

pub record Good (ps : List (List ℕ)) (entry : PendingNal) : Type 0 where
  pub fits : Fits entry.chunks ps
  pub counted : entry.received ≡ filled entry.chunks
  pub sized : (entry.total ≡ none) ⊎ (entry.total ≡ some (length ps))

pub fresh-Good : (ps : List (List ℕ)) → Good ps fresh
unfolding fresh
fresh-Good ps = record { fits = tt; counted = refl; sized = inl refl }

Fits-pad :
    (k : ℕ) (cs : List (Option (List ℕ))) (ps : List (List ℕ))
    → k ≤ length ps
    → Fits cs ps
    → Fits (pad k cs) ps
unfolding pad
Fits-pad zero cs ps h f = f
Fits-pad (suc k) [] [] h f = elim h [ ]
Fits-pad (suc k) [] (p ∷ ps) h f = Fits-pad k [] ps (omega arith) tt
Fits-pad (suc k) (c ∷ cs) [] h f = elim h [ ]
Fits-pad (suc k) (none ∷ cs) (p ∷ ps) h f = Fits-pad k cs ps (omega arith) f
Fits-pad (suc k) (some x ∷ cs) (p ∷ ps) h f = (f.0, Fits-pad k cs ps (omega arith) f.1)

filled-pad : (k : ℕ) (cs : List (Option (List ℕ))) → filled (pad k cs) ≡ filled cs
unfolding pad
filled-pad zero cs = refl
filled-pad (suc k) [] = filled-pad k []
filled-pad (suc k) (none ∷ cs) = filled-pad k cs
filled-pad (suc k) (some x ∷ cs) = ap suc (filled-pad k cs)

Fits-put :
    (i : ℕ) (x : List ℕ) (cs : List (Option (List ℕ))) (ps : List (List ℕ))
    → get_elem? ps i ≡ some x
    → Fits cs ps
    → Fits (put i x cs) ps
unfolding put
Fits-put i x [] ps h f = f
Fits-put zero x (c ∷ cs) [] h f = f
Fits-put (suc i) x (c ∷ cs) [] h f = f
Fits-put zero x (none ∷ cs) (p ∷ ps) h f = (cc, f)
Fits-put zero x (some y ∷ cs) (p ∷ ps) h f = (cc, f.1)
Fits-put (suc i) x (none ∷ cs) (p ∷ ps) h f = Fits-put i x cs ps h f
Fits-put (suc i) x (some y ∷ cs) (p ∷ ps) h f = (f.0, Fits-put i x cs ps h f.1)

filled-put :
    (i : ℕ) (x : List ℕ) (cs : List (Option (List ℕ)))
    → is_free i cs ≡ true
    → filled (put i x cs) ≡ suc (filled cs)
unfolding put is_free
filled-put zero x [] h = cc
filled-put (suc i) x [] h = cc
filled-put zero x (none ∷ cs) h = refl
filled-put zero x (some y ∷ cs) h = cc
filled-put (suc i) x (none ∷ cs) h = filled-put i x cs h
filled-put (suc i) x (some y ∷ cs) h = ap suc (filled-put i x cs h)

-- A chunk as the sender makes it: the piece of its index, marked as the last exactly if it is.
pub record Authentic (ps : List (List ℕ)) (h : ChunkHeader) (payload : List ℕ) : Type 0 where
  pub piece : get_elem? ps h.chunk_index ≡ some payload
  pub last : h.is_last ≡ (suc h.chunk_index == length ps)

pub store-Good :
    (ps : List (List ℕ)) (h : ChunkHeader) (payload : List ℕ) (entry : PendingNal)
    → Authentic ps h payload
    → Good ps entry
    → Good ps (store h payload entry)
unfolding store
store-Good ps h payload entry a g =
    let i = h.chunk_index in
    let padded = Fits-pad (suc i) entry.chunks ps (get_elem?-lt ps i payload a.piece) g.fits in
    ground (
      arith,
      padded,
      Fits-put i payload (pad (suc i) entry.chunks) ps a.piece padded,
      filled-pad (suc i) entry.chunks,
      filled-put i payload (pad (suc i) entry.chunks),
    )

filled_all : (cs : List (Option (List ℕ))) → all_some cs ≡ true → filled cs ≡ length cs
unfolding all_some
filled_all [] h = refl
filled_all (none ∷ cs) h = cc
filled_all (some x ∷ cs) h = ap suc (filled_all cs h)

flatten_full :
    (cs : List (Option (List ℕ))) (ps : List (List ℕ))
    → Fits cs ps
    → all_some cs ≡ true
    → length cs ≡ length ps
    → flatten cs ≡ concat ps
unfolding all_some flatten
flatten_full [] [] f h e = refl
flatten_full [] (p ∷ ps) f h e = absurd (omega arith)
flatten_full (c ∷ cs) [] f h e = absurd (omega arith)
flatten_full (none ∷ cs) (p ∷ ps) f h e = cc
flatten_full (some x ∷ cs) (p ∷ ps) f h e = cc (f.0, flatten_full cs ps f.1 h (omega arith))

complete_parts :
    (ps : List (List ℕ)) (entry : PendingNal)
    → Good ps entry
    → is_complete entry ≡ true
    → (all_some entry.chunks ≡ true) × (filled entry.chunks ≡ length ps)
unfolding is_complete
complete_parts ps entry g c = ground arith

-- A complete entry holds exactly the sender's pieces.
pub flatten_complete :
    (ps : List (List ℕ)) (entry : PendingNal)
    → Good ps entry
    → is_complete entry ≡ true
    → flatten entry.chunks ≡ concat ps
flatten_complete ps entry g c =
    let (all, count) = complete_parts ps entry g c in
    flatten_full entry.chunks ps g.fits all (omega (arith, filled_all entry.chunks all))
