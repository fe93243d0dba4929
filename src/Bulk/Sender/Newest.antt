-- ===== src/Bulk/Sender/Newest.antt =====
-- crates/robot-edge/src/bulk_sender.rs: the newest version of each object.
use robotele.Prelude.{ℕ, ◌≡◌, ◌⊎◌, false, Option, none, some, List, [], ◌∷◌, ◌++◌, if◌then◌else◌}
use robotele.Prelude.Assoc.{lookup}
use robotele.Bulk.Header.{BulkHeader, encode}
use robotele.Bulk.Sender.{
  Connection, Outgoing, BulkSender, send_all, begin, pump, pair_eq, pair_below, header_key, publish,
  allocate_stream, new,
}
use robotele.Bulk.Sender.Finished.{Over, Distinct}

module _ (connection : Connection) where
  open connection use {Conn}

  -- A call that changes the sender.
  pub data Call : Type 0 where
    publish_call : (h : BulkHeader) (payload : List ℕ) → Call
    pump_call : (budget : Option ℕ) → Call
    allocate_call : Call

  unfoldable pub apply : Call → Conn × BulkSender → Conn × BulkSender
  unfolding publish pump allocate_stream
  apply (publish_call h payload) (c, s) = publish connection c h payload s
  apply (pump_call budget) (c, s) = (pump connection c budget s).0
  apply allocate_call (c, s) = (c, (allocate_stream s).0)

  -- The sender and the connection after the calls, the newest first.
  unfoldable pub replay : Conn → List Call → Conn × BulkSender
  unfolding apply new
  replay c [] = (c, new)
  replay c (call ∷ calls) = apply call (replay c calls)

  -- The bytes of the version that was published last for a key.
  unfoldable pub last_published : ℕ × ℕ → List Call → Option (List ℕ)
  last_published k [] = none
  last_published k (publish_call h payload ∷ calls) =
      let before = last_published k calls in
      if pair_eq.beq (header_key h) k then some (encode h ++ payload) else before
  last_published k (pump_call budget ∷ calls) = last_published k calls
  last_published k (allocate_call ∷ calls) = last_published k calls

  -- The version that was published last is over at the end of a pump's loop over the objects.
  abbrev pub EndedNow : ℕ × ℕ → Option ℕ → Conn × BulkSender → Option (List ℕ) → Type 0
  EndedNow k budget (c, s) last =
      (o : Outgoing) × (lookup k (send_all connection s.active (begin connection c budget)).1
        ≡ some o)
      × (last ≡ some o.bytes)
      × Over connection o

  -- A version was over when a pump after its publication ended the loop over the objects, and it was
  -- the last one published till then: the connection had accepted its last bytes with the end of the
  -- stream, or had refused a send on its stream. No version was published since.
  abbrev pub Ended : Conn → ℕ × ℕ → List Call → Type 0
  Ended c k [] = ⊥
  Ended c k (publish_call h payload ∷ calls) =
      (pair_eq.beq (header_key h) k ≡ false) × Ended c k calls
  Ended c k (allocate_call ∷ calls) = Ended c k calls
  Ended c k (pump_call budget ∷ calls) =
      EndedNow k budget (replay c calls) (last_published k calls) ⊎ Ended c k calls
