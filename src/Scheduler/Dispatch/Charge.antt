-- ===== src/Scheduler/Dispatch/Charge.antt =====
-- Who pays for a slice: `charge` and its loop over the process table.
use minios_lab_edwin_jose.Base.{
  ℕ, zero, suc, ◌+◌, ◌≡◌, refl, ap, ◌∙◌, fun_ext, Bool, not, ◌&&◌, ◌==◌, leb, ltb, Option,
  if◌then◌else◌, update, arith, Bool-cases, inl, inr,
}
use minios_lab_edwin_jose.Machine.{Machine, Timespec}
use minios_lab_edwin_jose.Pcb.{Pcb, is_ready}
use minios_lab_edwin_jose.Scheduler.State.{System, timespec_diff_ms, put}
use minios_lab_edwin_jose.RoundRobin.{IsSane}
use minios_lab_edwin_jose.ReadyQueue.Contents.{IsRing, contents}
use minios_lab_edwin_jose.Scheduler.View.{states, WellFormed, IsSane-cast}
use minios_lab_edwin_jose.Scheduler.Dispatch.{charge_waiting, charge}

-- Whether the loop over [i, i + rounds) adds to entry `j`.
abbrev waits : {D : Type 0} → (rounds i self : ℕ) → (ℕ → Pcb D) → ℕ → Bool
waits rounds i self table j =
    leb i j && ltb j (i + rounds) && not (j == self) && is_ready (table j).state

charge_waiting-at :
    {W D : Type 0} (m : Machine W D) (rounds i self : ℕ) (elapsed : D) (table : ℕ → Pcb D) (j : ℕ)
    → charge_waiting m rounds i self elapsed table j ≡ (
        if waits rounds i self table j
        then record (table j) { wait_time_ms = m.add (table j).wait_time_ms elapsed }
        else table j)
unfolding charge_waiting
charge_waiting-at m zero i self elapsed table j = ground arith
charge_waiting-at {W} {D} m (suc k) i self elapsed table j =
    elim (Bool-cases (not (i == self) && is_ready (table i).state)) [
      | inl e ↦ rw e (
          charge_waiting-at m k (i + 1) self elapsed
            (update table i
              (record (table i) { wait_time_ms = m.add (table i).wait_time_ms elapsed }))
            j
          ∙ ground arith)
      | inr e ↦ rw e (charge_waiting-at m k (i + 1) self elapsed table j ∙ ground arith)
    ]

module _ {W D : Type 0} (m : Machine W D) (i : ℕ) (now : Timespec) (s : System W D) where
  -- The time since the running process was started.
  abbrev pub elapsed : D
  elapsed = timespec_diff_ms m now (s.process_table i).last_started

  -- The slice is added to the processor time of process `i` and to the waiting time of every other
  -- process of the table that is READY, in each case the same amount, and nothing else of the table
  -- changes.
  pub charge-at :
      (j : ℕ)
      → (charge m i now s).process_table j ≡ (
          if j == i
          then record (s.process_table i) {
            cpu_time_ms = m.add (s.process_table i).cpu_time_ms elapsed;
          }
          else if ltb j s.process_count && is_ready (s.process_table j).state
          then record (s.process_table j) {
            wait_time_ms = m.add (s.process_table j).wait_time_ms elapsed;
          }
          else s.process_table j)
  unfolding charge
  charge-at j =
      charge_waiting-at m s.process_count 0 i elapsed
        (put i
          (record (s.process_table i) {
            cpu_time_ms = m.add (s.process_table i).cpu_time_ms elapsed;
          })
          s).process_table
        j
      ∙ ground arith

  pub states-charge : states (charge m i now s) ≡ states s
  states-charge = fun_ext (λ j. ap (λ p. p.state) (charge-at j) ∙ ground arith)

  pub frame-charge :
      ((charge m i now s).rq ≡ s.rq)
      × ((charge m i now s).process_count ≡ s.process_count)
      × ((charge m i now s).current_running ≡ s.current_running)
      × ((charge m i now s).scheduler_active ≡ s.scheduler_active)
      × ((charge m i now s).mask ≡ s.mask)
  unfolding charge
  frame-charge = (refl, refl, refl, refl, refl)

  -- So charging a slice keeps what the scheduler relies on.
  pub charge-IsSane :
      (cur : Option ℕ) (act : Bool)
      → IsRing s.rq × IsSane (states s) s.process_count (contents s.rq) cur act
      → let s' = charge m i now s in
        IsRing s'.rq × IsSane (states s') s'.process_count (contents s'.rq) cur act
  charge-IsSane cur act = IsSane-cast states-charge frame-charge.1 frame-charge.0

  pub pid-charge : (j : ℕ) → ((charge m i now s).process_table j).pid ≡ (s.process_table j).pid
  pid-charge j = ap (λ p. p.pid) (charge-at j) ∙ ground arith

  pub charge-WellFormed : WellFormed s → WellFormed (charge m i now s)
  unfolding charge
  charge-WellFormed h = charge-IsSane s.current_running s.scheduler_active h
