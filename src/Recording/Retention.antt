-- ===== src/Recording/Retention.antt =====
-- crates/roboprotocol-core/src/recording.rs: when a segment is closed, and which ones are deleted.
-- A duration is a number of nanoseconds. The sizes are added without overflow, as they are there:
-- they are lengths of files.
use robotele.Prelude.{
  ℕ, zero, suc, ◌+◌, ◌-◌, ◌≤◌, ◌<◌, ◌≡◌, ◌≢◌, ◌⊎◌, inl, inr, refl, ap, Bool, ◌||◌, List, [], ◌∷◌,
  arith, leb, if◌then◌else◌, length, drop, Bool-cases,
}

pub record RotationThresholds : Type 0 where
  pub max_segment_bytes : ℕ
  pub max_segment_duration : ℕ

unfoldable pub should_rotate : ℕ → ℕ → ℕ → RotationThresholds → Bool
should_rotate current_size opened_at now thresholds =
    leb thresholds.max_segment_bytes current_size
    || leb thresholds.max_segment_duration (now - opened_at)

pub record SegmentMeta : Type 0 where
  pub size_bytes : ℕ

abbrev pub sum_bytes : List SegmentMeta → ℕ
sum_bytes [] = 0
sum_bytes (s ∷ ss) = s.size_bytes + sum_bytes ss

-- The loop, at index `i`, with the total that is left.
unfoldable pub delete_from : ℕ → ℕ → ℕ → List SegmentMeta → List ℕ
delete_from budget i total [] = []
delete_from budget i total (newest ∷ []) = []
delete_from budget i total (seg ∷ next ∷ rest) =
    let more = delete_from budget (i + 1) (total - seg.size_bytes) (next ∷ rest) in
    if leb total budget then [] else i ∷ more

unfoldable pub segments_to_delete_for_budget : List SegmentMeta → ℕ → ℕ → List ℕ
unfolding delete_from
segments_to_delete_for_budget existing incoming_bytes budget_bytes =
    delete_from budget_bytes 0 (sum_bytes existing + incoming_bytes) existing

abbrev pub range_from : ℕ → ℕ → List ℕ
range_from i zero = []
range_from i (suc k) = i ∷ range_from (i + 1) k

-- That the `k` oldest of the segments are chosen, with the budget for segments and incoming bytes.
pub record Chosen (existing : List SegmentMeta) (incoming budget k : ℕ) : Type 0 where
  pub newest_kept : existing ≢ [] → k < length existing
  pub enough : (sum_bytes (drop k existing) + incoming ≤ budget) ⊎ (length existing ≤ suc k)
  pub needed : (j : ℕ) → j < k → budget < sum_bytes (drop j existing) + incoming

delete_from-Chosen :
    (budget incoming i total : ℕ) (existing : List SegmentMeta)
    → total ≡ sum_bytes existing + incoming
    → (k : ℕ) × (delete_from budget i total existing ≡ range_from i k)
      × Chosen existing incoming budget k
unfolding delete_from
delete_from-Chosen budget incoming i total [] e = (
  0,
  refl,
  record {
    newest_kept = λ n. absurd (n refl);
    enough = inr (omega arith);
    needed = λ j h. absurd (omega arith);
  },
)
delete_from-Chosen budget incoming i total (newest ∷ []) e = (
  0,
  refl,
  record {
    newest_kept = λ n. omega arith;
    enough = inr (omega arith);
    needed = λ j h. absurd (omega arith);
  },
)
delete_from-Chosen budget incoming i total (seg ∷ next ∷ rest) e =
    elim (Bool-cases (leb total budget)) [
      | inl fits ↦ (
        0,
        rw fits,
        record {
          newest_kept = λ n. omega arith;
          enough = inl (ground arith);
          needed = λ j h. absurd (omega arith);
        },
      )
      | inr over ↦
          let (k, same, c) =
            delete_from-Chosen budget incoming (i + 1) (total - seg.size_bytes) (next ∷ rest)
              (omega arith) in
          (
            suc k,
            rw over (ap (◌∷◌ i) same),
            record {
              newest_kept = λ n. omega (arith, c.newest_kept (λ q. cc));
              enough = ground (arith, c.enough);
              needed = needed_before seg (next ∷ rest) (ground arith) k c.needed;
            },
          )
    ]
  where
    needed_before :
        (s : SegmentMeta) (ss : List SegmentMeta)
        → budget < sum_bytes (s ∷ ss) + incoming
        → (k : ℕ) → ((j : ℕ) → j < k → budget < sum_bytes (drop j ss) + incoming)
        → (j : ℕ) → j < suc k
        → budget < sum_bytes (drop j (s ∷ ss)) + incoming
    needed_before s ss first k rest zero h = first
    needed_before s ss first k rest (suc j) h = rest j (omega arith)

-- The segments chosen for deletion are the `k` oldest, for one `k`: the newest is never among them;
-- what is left fits the budget with the incoming bytes, or only the newest is left; and each one
-- deleted was needed, since without it the total was still over the budget.
pub segments_to_delete-Chosen :
    (existing : List SegmentMeta) (incoming budget : ℕ)
    → (k : ℕ) × (segments_to_delete_for_budget existing incoming budget ≡ range_from 0 k)
      × Chosen existing incoming budget k
unfolding segments_to_delete_for_budget
segments_to_delete-Chosen existing incoming budget =
    delete_from-Chosen budget incoming 0 (sum_bytes existing + incoming) existing refl
