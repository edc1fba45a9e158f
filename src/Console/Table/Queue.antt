-- ===== src/Console/Table/Queue.antt =====
-- The queue line of `rq_print` (src/ready_queue.c) and the table of `ps` (src/shell.c), against the list
-- of what the queue holds.
use minios_lab_edwin_jose.Base.{
  ℕ, zero, suc, ◌+◌, ◌-◌, ◌%◌, ◌≡◌, refl, sym, ap, ◌∙◌, true, false, none, some, ◌⊎◌, List, [], ◌∷◌,
  ◌++◌, ltb, arith, length, inl, inr, eq-cases, eq-true, eq-false, ◌≢◌,
}
use minios_lab_edwin_jose.Base.Int.{pos}
use minios_lab_edwin_jose.Base.Text.{codes}
use minios_lab_edwin_jose.Machine.{dec}
use minios_lab_edwin_jose.Pcb.{Pcb}
use minios_lab_edwin_jose.ReadyQueue.{ReadyQueue, dequeue}
use minios_lab_edwin_jose.ReadyQueue.Contents.{
  IsRing, collect, contents, length-contents, dequeue-empty, contents-nil, contents-dequeue,
}
use minios_lab_edwin_jose.Console.{Out, plain, say}
use minios_lab_edwin_jose.Console.Table.{arrow, rq_entries, rq_print}

module _ {D : Type 0} where
  -- "PID a → PID b → ... ", for the processes of a list.
  abbrev pub chain : List ℕ → (ℕ → Pcb D) → List (Out D)
  chain [] table = []
  chain (x ∷ []) table = say (codes "PID ") ∷ plain (dec (pos (table x).pid)) ∷ []
  chain (x ∷ y ∷ ys) table =
      say (codes "PID ") ∷ plain (dec (pos (table x).pid)) ∷ arrow ∷ chain (y ∷ ys) table

  abbrev pub queue_line : List ℕ → (ℕ → Pcb D) → List (Out D)
  queue_line [] table = say (codes "  Ready Queue: [vac" ++ 195 ∷ 173 ∷ codes "a]\n") ∷ []
  queue_line (x ∷ xs) table =
      say (codes "  Ready Queue: ") ∷ chain (x ∷ xs) table ++ say (codes "\n") ∷ []

  rq_entries-chain :
      (k i h : ℕ) (q : ReadyQueue) (table : ℕ → Pcb D)
      → i + k ≡ q.count
      → q.front + i ≡ h
      → rq_entries k i q table ≡ chain (collect q.slots h k) table
  unfolding rq_entries
  rq_entries-chain zero i h q table e at = refl
  rq_entries-chain (suc zero) i h q table e at =
      let last : ltb i (q.count - 1) ≡ false = ground arith in rw (last, at) refl
  rq_entries-chain (suc (suc k)) i h q table e at =
      let more : ltb i (q.count - 1) ≡ true = ground arith in
      let rest =
        rq_entries-chain (suc k) (i + 1) (h + 1) q table (omega (arith, e)) (omega (arith, at)) in
      rw (more, at)
        (ap
          (λ xs. say (codes "PID ") ∷ plain (dec (pos (table (q.slots (h % 10))).pid)) ∷ arrow ∷ xs)
          rest)

  queue_line-some :
      (xs : List ℕ) (table : ℕ → Pcb D)
      → length xs ≢ 0
      → queue_line xs table
        ≡ say (codes "  Ready Queue: ") ∷ chain xs table ++ say (codes "\n") ∷ []
  queue_line-some [] table h = absurd (h refl)
  queue_line-some (x ∷ xs) table h = refl

  -- The walk over the circular buffer prints what the queue holds, oldest first, the pids separated by arrows.
  pub rq_print-line :
      (q : ReadyQueue) (table : ℕ → Pcb D) → rq_print q table ≡ queue_line (contents q) table
  unfolding rq_print
  rq_print-line q table = elim (eq-cases q.count 0) [
    | inl e ↦
        rw (eq-true q.count 0 e)
          (ap (λ xs. queue_line xs table) (sym (ap (collect q.slots q.front) e)))
    | inr ne ↦
        let entries = rq_entries-chain q.count 0 q.front q table (omega arith) (omega arith) in
        let full = queue_line-some (contents q) table (λ e. ne (sym (length-contents q) ∙ e)) in
        rw (eq-false q.count 0 ne, entries) (sym full)
  ]

  -- Of a ring that closes, the line shows the processes in the order in which they will leave the queue: first the one that the
  -- next `dequeue` takes, then what the line shows after it; it says that the queue is empty just when
  -- `dequeue` takes nothing.
  pub rq_print-dequeue :
      (q : ReadyQueue) (table : ℕ → Pcb D)
      → IsRing q
      → let (out, q') = dequeue q in
        ((out ≡ none) × (rq_print q table ≡ queue_line [] table))
        ⊎ ((x : ℕ) × (out ≡ some x)
            × (rq_print q table ≡ queue_line (x ∷ contents q') table)
            × (rq_print q' table ≡ queue_line (contents q') table))
  rq_print-dequeue q table ring = elim (eq-cases q.count 0) [
    | inl e ↦ inl (
      ap (λ r. r.0) (dequeue-empty q e),
      rq_print-line q table ∙ ap (λ xs. queue_line xs table) (contents-nil q e),
    )
    | inr ne ↦
        let (x, taken, order, ring1, fewer) = contents-dequeue ring ne in
        inr (
          x,
          taken,
          rq_print-line q table ∙ ap (λ xs. queue_line xs table) order,
          rq_print-line (dequeue q).1 table,
        )
  ]
