-- ===== src/Recording/Ring.antt =====
-- crates/roboprotocol-recording/src/ring.rs and lib.rs: the bounded ring between a category's producers
-- and its writer. Each call is one step under the lock, so an interleaving is a sequence of calls.
pub mod Order
use robotele.Prelude.{
  ℕ, suc, ◌+◌, Bool, true, false, Option, none, some, List, [], ◌∷◌, ◌++◌, leb, max, if◌then◌else◌,
  length,
}

pub record Record : Type 0 where
  pub capture_us : ℕ
  pub control_source : ℕ
  pub payload : List ℕ

pub record CategoryState : Type 0 where
  pub ring : List Record
  pub capacity : ℕ
  pub active : Bool
  pub dropped : ℕ
  pub bytes_enqueued : ℕ

unfoldable pub new : ℕ → Bool → CategoryState
new capacity start_active = record {
  ring = [];
  capacity = max capacity 1;
  active = start_active;
  dropped = 0;
  bytes_enqueued = 0;
}

-- `pop_front`
abbrev pub rest_of : List Record → List Record
rest_of [] = []
rest_of (r ∷ rs) = rs

unfoldable pub push : CategoryState → Record → CategoryState
push s r =
    let full = leb s.capacity (length s.ring) in
    record s {
      ring = (if full then rest_of s.ring else s.ring) ++ r ∷ [];
      dropped = if full then s.dropped + 1 else s.dropped;
      bytes_enqueued = s.bytes_enqueued + length r.payload;
    }

-- What the writer gets once it wakes; how long it waits is left out.
unfoldable pub drain : CategoryState → CategoryState × List Record
drain s = (record s { ring = [] }, s.ring)

-- `Recorder::enqueue` and `set_active`, for one configured category.
unfoldable pub enqueue : CategoryState → Record → CategoryState
unfolding push
enqueue s r = if s.active then push s r else s

unfoldable pub set_active : CategoryState → Bool → CategoryState
set_active s active = record s { active = active }

unfoldable pub stats : CategoryState → ℕ × ℕ × Bool
stats s = (s.bytes_enqueued, s.dropped, s.active)
