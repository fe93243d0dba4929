-- ===== src/Bulk/Sender/Enough.antt =====
-- crates/robot-edge/src/bulk_sender.rs: the turns that the loop over one object takes.
use robotele.Prelude.{
  ℕ, zero, suc, ◌+◌, ◌-◌, ◌≤◌, ◌<◌, ◌≡◌, refl, ap, ◌∙◌, false, ◌&&◌, arith, ltb, ◌==◌, length, min,
  inl, inr, Bool-cases,
}
use robotele.Bulk.Sender.{
  Connection, Answer, accepted, done, stream_limit, failed, Outgoing, Pump, send_loop, send_chunk,
  chunk_end, took, answered, enough, ends,
}
use robotele.Bulk.Sender.Loop.{sent_at_most}

module _ (connection : Connection) where
  open connection use {Conn}

  -- Another turn is taken only if a whole chunk went that is not the last.
  answered-same :
      (key : ℕ × ℕ) (o : Outgoing) (p : Pump connection) (a : Answer)
      (again more : Pump connection × Outgoing → Pump connection × Outgoing)
      → ((n : ℕ)
          → a ≡ accepted n
          → (ends o p.left && o.offset + n == length o.bytes) ≡ false
          → ltb n (chunk_end o p.left - o.offset) ≡ false
          → again (took connection n o p) ≡ more (took connection n o p))
      → answered connection key o p a again ≡ answered connection key o p a more
  answered-same key o p done again more h = refl
  answered-same key o p stream_limit again more h = refl
  answered-same key o p failed again more h = refl
  answered-same key o p (accepted n) again more h =
      elim (Bool-cases (ends o p.left && o.offset + n == length o.bytes)) [
        | inl q ↦ rw q refl
        | inr q ↦ elim (Bool-cases (ltb n (chunk_end o p.left - o.offset))) [
          | inl s ↦ rw (q, s) refl
          | inr s ↦ rw (q, s) (h n refl q s)
        ]
      ]

  -- A whole chunk that is not the last brings the object on.
  less_left :
      (offset n size left : ℕ)
      → offset ≤ size
      → (left == 0) ≡ false
      → n ≤ min (offset + min 16384 left) size - offset
      → (min (offset + min 16384 left) size == size && offset + n == size) ≡ false
      → ltb n (min (offset + min 16384 left) size - offset) ≡ false
      → (offset < offset + n) × (offset + n ≤ size)
  less_left offset n size left h l most q s = ground (arith, h, l, most, q, s)

  one_more :
      (fuel : ℕ) (key : ℕ × ℕ) (p : Pump connection) (o : Outgoing)
      → o.offset ≤ length o.bytes
      → enough o ≤ fuel
      → send_loop connection (suc fuel) key (p, o) ≡ send_loop connection fuel key (p, o)
  unfolding send_loop
  one_more zero key p o h f = absurd (omega (arith, f))
  one_more (suc fuel) key p o h f = elim (Bool-cases (p.left == 0)) [
    | inl q ↦ rw q refl
    | inr q ↦ rw q (
        answered-same key o (record p { conn = (send_chunk connection o p).0 })
          (send_chunk connection o p).1 (send_loop connection (suc fuel) key)
          (send_loop connection fuel key)
          (λ n e w s.
            let on =
              less_left o.offset n (length o.bytes) p.left h q (sent_at_most connection o p n e) w
                s in
            let c = record p { conn = (send_chunk connection o p).0 } in
            one_more fuel key (took connection n o c).0 (took connection n o c).1 on.1
              (omega (arith, on.0, on.1, f))))
  ]

  -- The loop over an object stops: the turns it is given are enough, whatever the connection
  -- answers, if what is sent of the object is at most the object.
  pub send_loop-enough :
      (extra : ℕ) (key : ℕ × ℕ) (p : Pump connection) (o : Outgoing)
      → o.offset ≤ length o.bytes
      → send_loop connection (enough o + extra) key (p, o)
        ≡ send_loop connection (enough o) key (p, o)
  send_loop-enough zero key p o h = ap (λ n. send_loop connection n key (p, o)) (omega arith)
  send_loop-enough (suc extra) key p o h =
      ap (λ n. send_loop connection n key (p, o)) (omega arith)
      ∙ one_more (enough o + extra) key p o h (omega arith)
      ∙ send_loop-enough extra key p o h
