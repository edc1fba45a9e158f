-- ===== src/Scheduler/View.antt =====
-- The system of src/scheduler.c as the view that `RoundRobin` is about, and its well-formedness.
use minios_lab_edwin_jose.Base.{ℕ, ◌≡◌, fun_ext, Bool, Option, update, arith}
use minios_lab_edwin_jose.Pcb.{Pcb, ProcState}
use minios_lab_edwin_jose.RoundRobin.{IsSane, IsBetween}
use minios_lab_edwin_jose.ReadyQueue.Contents.{IsRing, contents}
use minios_lab_edwin_jose.ReadyQueue.{ReadyQueue}
use minios_lab_edwin_jose.Scheduler.State.{System, put}

module _ {W D : Type 0} where
  abbrev pub states : System W D → ℕ → ProcState
  states s i = (s.process_table i).state

  -- What holds between any two events: the ring is well formed, and the view is sane.
  abbrev pub WellFormed : System W D → Type 0
  WellFormed s =
      IsRing s.rq
      × IsSane (states s) s.process_count (contents s.rq) s.current_running s.scheduler_active

  -- What holds in the middle of a switch.
  abbrev pub Switching : System W D → Type 0
  Switching s = IsRing s.rq × IsBetween (states s) s.process_count (contents s.rq)

  pub states-put :
      (i : ℕ) (p : Pcb D) (s : System W D) → states (put i p s) ≡ update (states s) i p.state
  states-put i p s = fun_ext (λ j. ground arith)

-- The two conditions depend on the states, the size of the table and the ring alone.
module _ {st st' : ℕ → ProcState} {n n' : ℕ} {r r' : ReadyQueue} (es : st ≡ st') (en : n ≡ n')
    (er : r ≡ r') where
  pub IsSane-cast :
      {cur : Option ℕ} {act : Bool}
      → IsRing r' × IsSane st' n' (contents r') cur act
      → IsRing r × IsSane st n (contents r) cur act
  IsSane-cast h = rw (es, en, er) h

  pub IsBetween-cast :
      IsRing r' × IsBetween st' n' (contents r') → IsRing r × IsBetween st n (contents r)
  IsBetween-cast h = rw (es, en, er) h
