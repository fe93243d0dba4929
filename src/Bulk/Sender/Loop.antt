-- ===== src/Bulk/Sender/Loop.antt =====
-- crates/robot-edge/src/bulk_sender.rs: what the loop over one object keeps.
use robotele.Prelude.{
  ℕ, zero, suc, ◌+◌, ◌-◌, ◌≤◌, ◌≡◌, refl, ◌&&◌, List, arith, ltb, ◌==◌, length, inl, inr,
  Bool-cases, length-take, drop,
}
use robotele.Prelude.Bytes.{slice}
use robotele.Bulk.Sender.{
  Connection, Answer, accepted, done, stream_limit, failed, Outgoing, Pump, send_loop, chunk_end,
  took, finish, answered, send_chunk, ends,
}

length-slice : (i j : ℕ) (xs : List ℕ) → length (slice i j xs) ≤ j - i
length-slice i j xs = grind (arith, length-take (j - i) (drop i xs))

module _ (connection : Connection) where
  open connection use {Conn, stream_send, stream_priority, accepts_at_most}

  -- What a turn of the loop may do to the pump and the object.
  pub record Kept (P : Pump connection × Outgoing → Type 0) : Type 0 where
    pub sent :
        (p : Pump connection) (o : Outgoing) (c : Conn) → P (p, o) → P (record p { conn = c }, o)
    pub finished :
        (key : ℕ × ℕ) (x : Pump connection × Outgoing) → P x → P (finish connection key x)
    pub taken :
        (n : ℕ) (p : Pump connection) (o : Outgoing)
        → n ≤ p.left
        → P (p, o)
        → P (took connection n o p)

  pub sent_at_most :
      (o : Outgoing) (p : Pump connection) (n : ℕ)
      → (send_chunk connection o p).1 ≡ accepted n
      → n ≤ chunk_end o p.left - o.offset
  sent_at_most o p n e =
      let bytes : List ℕ = slice o.offset (chunk_end o p.left) o.bytes in
      let most : n ≤ length bytes = accepts_at_most p.conn o.stream_id bytes (ends o p.left) n e in
      let wide : length bytes ≤ chunk_end o p.left - o.offset =
        length-slice o.offset (chunk_end o p.left) o.bytes in
      omega (arith, most, wide)

  sent_within :
      (o : Outgoing) (p : Pump connection) (n : ℕ)
      → (send_chunk connection o p).1 ≡ accepted n
      → n ≤ p.left
  sent_within o p n e =
      let most : n ≤ chunk_end o p.left - o.offset = sent_at_most o p n e in omega (arith, most)

  answered_kept :
      (P : Pump connection × Outgoing → Type 0) (key : ℕ × ℕ) (o : Outgoing) (p : Pump connection)
      (a : Answer) (again : Pump connection × Outgoing → Pump connection × Outgoing)
      → Kept P
      → P (p, o)
      → ((n : ℕ) → a ≡ accepted n → n ≤ p.left)
      → ((x : Pump connection × Outgoing) → P x → P (again x))
      → P (answered connection key o p a again)
  answered_kept P key o p done again kept h most next = h
  answered_kept P key o p stream_limit again kept h most next = h
  answered_kept P key o p failed again kept h most next = kept.finished key (p, o) h
  answered_kept P key o p (accepted n) again kept h most next =
      let t = kept.taken n p o (most n refl) h in
      elim (Bool-cases (ends o p.left && o.offset + n == length o.bytes)) [
        | inl q ↦ rw q (kept.finished key (took connection n o p) t)
        | inr q ↦ elim (Bool-cases (ltb n (chunk_end o p.left - o.offset))) [
          | inl s ↦ rw (q, s) t
          | inr s ↦ rw (q, s) (next (took connection n o p) t)
        ]
      ]

  pub send_loop_kept :
      (P : Pump connection × Outgoing → Type 0) (fuel : ℕ) (key : ℕ × ℕ)
      (x : Pump connection × Outgoing)
      → Kept P
      → P x
      → P (send_loop connection fuel key x)
  unfolding send_loop
  send_loop_kept P zero key (p, o) kept h = h
  send_loop_kept P (suc fuel) key (p, o) kept h = elim (Bool-cases (p.left == 0)) [
    | inl q ↦ rw q h
    | inr q ↦ rw q (
        answered_kept P key o (record p { conn = (send_chunk connection o p).0 })
          (send_chunk connection o p).1 (send_loop connection fuel key) kept
          (kept.sent p o (send_chunk connection o p).0 h) (sent_within o p)
          (λ y hy. send_loop_kept P fuel key y kept hy))
  ]
