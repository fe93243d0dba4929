-- ===== src/Recording/Ring/Order.antt =====
-- The ring is bounded, counts what it drops, and keeps the order of what it passes on.
use robotele.Prelude.{ℕ, ◌-◌, ◌≡◌, Bool, List, [], ◌∷◌, ◌++◌, max, if◌then◌else◌, length, drop}
use robotele.Recording.Ring.{Record, CategoryState, drain, enqueue, set_active}

pub data Call : Type 0 where
  enqueues : Record → Call
  drains : Call
  activates : Bool → Call

unfoldable pub step : CategoryState → Call → CategoryState
step s (enqueues r) = enqueue s r
step s drains = (drain s).0
step s (activates active) = set_active s active

-- The state after the calls, the newest first.
unfoldable pub replay : CategoryState → List Call → CategoryState
unfolding step
replay s [] = s
replay s (c ∷ cs) = step (replay s cs) c

-- The records that were let in since the ring was last drained, in order: those enqueued while the
-- category was active, `active` being what it was at the start.
unfoldable pub active_after : Bool → List Call → Bool
active_after active [] = active
active_after active (enqueues r ∷ cs) = active_after active cs
active_after active (drains ∷ cs) = active_after active cs
active_after active (activates b ∷ cs) = b

unfoldable pub let_in : Bool → List Call → List Record
unfolding active_after
let_in active [] = []
let_in active (enqueues r ∷ cs) =
    let before = let_in active cs in if active_after active cs then before ++ r ∷ [] else before
let_in active (drains ∷ cs) = []
let_in active (activates b ∷ cs) = let_in active cs

-- The last `n` elements.
abbrev pub last_of : ℕ → List Record → List Record
last_of n rs = drop (length rs - n) rs

pub record Holds (capacity : ℕ) (active : Bool) (cs : List Call) (s : CategoryState) : Type 0 where
  pub capacity_kept : s.capacity ≡ max capacity 1
  pub active_kept : s.active ≡ active_after active cs
  pub newest : s.ring ≡ last_of (max capacity 1) (let_in active cs)
