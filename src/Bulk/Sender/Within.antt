-- ===== src/Bulk/Sender/Within.antt =====
-- crates/robot-edge/src/bulk_sender.rs: what a pump writes, against its budget.
use robotele.Prelude.{ℕ, ◌+◌, ◌≤◌, ◌≡◌, Option, List, [], ◌∷◌, arith, ◌==◌, inl, inr, Bool-cases}
use robotele.Bulk.Sender.{
  Connection, Outgoing, BulkSender, Pump, send_loop, send_all, pump, enough, budget_or_max,
}
use robotele.Bulk.Sender.Loop.{Kept, send_loop_kept}

module _ (connection : Connection) where
  open connection use {Conn}

  -- What is written and what is left are as much as before.
  abbrev Spent : ℕ → Pump connection × Outgoing → Type 0
  Spent total (p, o) = p.written + p.left ≡ total

  Spent-Kept : (total : ℕ) → Kept connection (Spent total)
  Spent-Kept total = record {
    sent = λ p o c h. h;
    finished = λ key x h. h;
    taken = λ n p o most h. omega (arith, most, h);
  }

  send_all-spent :
      (m : List ((ℕ × ℕ) × Outgoing)) (p : Pump connection) (total : ℕ)
      → p.written + p.left ≡ total
      → (send_all connection m p).0.written + (send_all connection m p).0.left ≡ total
  unfolding send_all
  send_all-spent [] p total h = h
  send_all-spent ((key, o) ∷ m) p total h =
      let p' = (send_loop connection (enough o) key (p, o)).0 in
      let one : p'.written + p'.left ≡ total =
        send_loop_kept connection (Spent total) (enough o) key (p, o) (Spent-Kept total) h in
      elim (Bool-cases (p'.left == 0)) [
        | inl q ↦ rw q one
        | inr q ↦ rw q (send_all-spent m p' total one)
      ]

  -- A pump writes at most its budget, and at most the largest `usize` without one.
  pub pump-within :
      (c : Conn) (budget : Option ℕ) (s : BulkSender)
      → (pump connection c budget s).1 ≤ budget_or_max budget
  unfolding pump
  pump-within c budget s =
      let start : Pump connection = record {
        conn = c;
        left = budget_or_max budget;
        written = 0;
        finished = [];
      } in
      omega (arith, send_all-spent s.active start (budget_or_max budget) (omega arith))
