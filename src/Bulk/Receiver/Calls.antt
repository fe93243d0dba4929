-- ===== src/Bulk/Receiver/Calls.antt =====
-- A session's calls on the receiver.
use robotele.Prelude.{ℕ, Bool, List, [], ◌∷◌}
use robotele.Bulk.Receiver.{BulkReceiver, new, on_data, on_reset}

-- The calls of a session.
pub data Call : Type 0 where
  bytes_read : (id : ℕ) (chunk : List ℕ) (fin : Bool) → Call
  stream_reset : (id : ℕ) → Call

unfoldable pub apply : Call → BulkReceiver → BulkReceiver
apply (bytes_read id chunk fin) r = (on_data id chunk fin r).1
apply (stream_reset id) r = on_reset id r

-- The receiver after the calls, the newest first.
unfoldable pub replay : List Call → BulkReceiver
unfolding apply new
replay [] = new
replay (c ∷ cs) = apply c (replay cs)
