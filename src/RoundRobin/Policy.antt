-- ===== src/RoundRobin/Policy.antt =====
-- What one run of the dispatching loop of src/scheduler.c can do to the queue.
use minios_lab_edwin_jose.Base.{ℕ, Option, none, some, List, [], ◌∷◌}

-- One process of the queue, which accepts it, gets the processor, and those before it, which refuse it, leave the
-- queue; or all of the queue refuse it and leave.
pub data Dispatches (refuses accepts : ℕ → Type 0) : List ℕ → List ℕ → Option ℕ → Type 0 where
  nobody : Dispatches refuses accepts [] [] none
  given : (i : ℕ) (q : List ℕ) → accepts i → Dispatches refuses accepts (i ∷ q) q (some i)
  passed :
      {q q' : List ℕ} {r : Option ℕ} (i : ℕ)
      → refuses i
      → Dispatches refuses accepts q q' r
      → Dispatches refuses accepts (i ∷ q) q' r
