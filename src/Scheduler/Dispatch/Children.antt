-- ===== src/Scheduler/Dispatch/Children.antt =====
-- Switching processes makes no new child: what `CountsChildren` counts does not grow.
use minios_lab_edwin_jose.Base.{ℕ, zero, suc, ◌≤◌, ap, arith, inl, inr}
use minios_lab_edwin_jose.Machine.{Machine, CountsChildren, Timespec, sigcont}
use minios_lab_edwin_jose.Platform.{Platform}
use minios_lab_edwin_jose.Platform.Laws.{resume_process-kill}
use minios_lab_edwin_jose.Timer.Laws.{stop-le}
use minios_lab_edwin_jose.Monitor.Laws.{emit_terminated-le}
use minios_lab_edwin_jose.Scheduler.State.{System, clock, stop_timer, report_terminated}
use minios_lab_edwin_jose.Scheduler.Dispatch.{
  charge, idle, resume, mark_running, attempt, discard, dispatch,
}
use minios_lab_edwin_jose.Scheduler.Dispatch.Laws.{dequeued, dispatch-cases}

module _ {W D : Type 0} (m : Machine W D) (t : Platform) (children : W → ℕ)
    (law : CountsChildren m children) where
  pub charge-le :
      (i : ℕ) (now : Timespec) (s : System W D)
      → children (charge m i now s).world ≤ children s.world
  unfolding charge
  charge-le i now s = omega arith

  pub idle-le : (s : System W D) → children (idle m s).world ≤ children s.world
  unfolding idle stop_timer
  idle-le s = stop-le m children law s.world

  resume-le : (pid : ℕ) (s : System W D) → children (resume m t pid s).1.world ≤ children s.world
  unfolding resume
  resume-le pid s = omega (
    arith,
    ap (λ r. children r.1) (resume_process-kill m t pid s.world),
    law.kill_le pid sigcont s.world,
  )

  attempt-le : (i : ℕ) (s : System W D) → children (attempt m t i s).1.world ≤ children s.world
  unfolding attempt mark_running clock
  attempt-le i s = omega (arith, resume-le _ _, law.clock_gettime_le s.world)

  discard-le : (i : ℕ) (s : System W D) → children (discard m t i s).world ≤ children s.world
  unfolding discard report_terminated
  discard-le i s = emit_terminated-le m children law _ _ _ s.monitor s.world

  pub dispatch-le :
      (fuel : ℕ) (s : System W D) → children (dispatch m t fuel s).1.world ≤ children s.world
  unfolding dispatch
  dispatch-le zero s = omega arith
  dispatch-le (suc fuel) s = elim (dispatch-cases m t fuel s) [
    | inl e ↦ omega (arith, ap (λ r. children r.1.world) e)
    | inr (inl e) ↦ omega (arith, ap (λ r. children r.1.world) e, dispatch-le fuel (dequeued m t s))
    | inr (inr (inl (i, d, e))) ↦
        omega (arith, ap (λ r. children r.1.world) e, attempt-le i (dequeued m t s))
    | inr (inr (inr (i, d, e))) ↦ omega (
      arith,
      ap (λ r. children r.1.world) e,
      dispatch-le fuel (discard m t i (attempt m t i (dequeued m t s)).1),
      discard-le i (attempt m t i (dequeued m t s)).1,
      attempt-le i (dequeued m t s),
    )
  ]
