-- ===== src/Video/Gate/Freeze.antt =====
-- Freeze, don't smear: what an admitted delta says of the NAL units before it.
use robotele.Prelude.{ℕ, ◌+◌, ◌≤◌, ◌<◌, ◌≡◌, ◌≢◌, ◌⊎◌, false, some, List, [], ◌∷◌, max}
use robotele.Video.Gate.{DeltaGate, restart_gap, nal_idr, u32_max, admit, playback_overflowed}

pub data Event : Type 0 where
  nal : (nal_id nal_type : ℕ) → Event
  overflow : Event

unfoldable pub step : DeltaGate → Event → DeltaGate
step g (nal nal_id nal_type) = (admit g nal_id nal_type).0
step g overflow = playback_overflowed g

-- The gate after a history, newest first.
unfoldable pub replay : DeltaGate → List Event → DeltaGate
unfolding step
replay g [] = g
replay g (e ∷ es) = step (replay g es) e

abbrev pub Seen : ℕ → List Event → Type 0
Seen k [] = ⊥
Seen k (nal nal_id nal_type ∷ es) = (nal_id ≡ k) ⊎ Seen k es
Seen k (overflow ∷ es) = Seen k es

-- The id behind the newest one seen, from `from` on.
abbrev pub ahead : ℕ → List Event → ℕ
ahead from [] = from
ahead from (nal nal_id nal_type ∷ es) = max (ahead from es) (nal_id + 1)
ahead from (overflow ∷ es) = ahead from es

-- No IDR, no id that lies far enough below the newest one to look like a restart of the stream, and
-- none at the end of the 32 bits.
abbrev pub Steady : ℕ → List Event → Type 0
Steady from [] = Unit {0}
Steady from (nal nal_id nal_type ∷ es) =
    (nal_type ≢ nal_idr)
    × (ahead from es ≤ nal_id + restart_gap)
    × (nal_id + restart_gap < u32_max)
    × Steady from es
Steady from (overflow ∷ es) = Steady from es

-- The gate expects the id behind the newest one and, unless frozen, has seen every id from `from` up
-- to it.
record Follows (from : ℕ) (es : List Event) (g : DeltaGate) : Type 0 where
  expects : g.next_id ≡ some (ahead from es)
  seen : g.frozen ≡ false → (k : ℕ) → from ≤ k → k < ahead from es → Seen k es
