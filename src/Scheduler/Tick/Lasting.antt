-- ===== src/Scheduler/Tick/Lasting.antt =====
-- The handler of SIGALRM takes nothing back: the table keeps its processes, and TERMINATED ones stay so.
use minios_lab_edwin_jose.Base.{ℕ, ◌+◌, ◌≡◌, refl, ap, ◌∙◌, Option, none, some, if-rule, Always}
use minios_lab_edwin_jose.Machine.{Machine, WaitResult}
use minios_lab_edwin_jose.Pcb.{ready, running, terminated}
use minios_lab_edwin_jose.Platform.{Platform}
use minios_lab_edwin_jose.ReadyQueue
use minios_lab_edwin_jose.Scheduler.State.{
  System, SigMask, in_world, emit_switch, clock, report_terminated, emit_terminated, block_chld,
  restore_mask,
}
use minios_lab_edwin_jose.Scheduler.View.{states, WellFormed}
use minios_lab_edwin_jose.Scheduler.Lasting.{Lasting, Lasting-put, Lasting-refl}
use minios_lab_edwin_jose.Scheduler.Dispatch.{charge, idle, dispatch}
use minios_lab_edwin_jose.Scheduler.Dispatch.Charge.{states-charge}
use minios_lab_edwin_jose.Scheduler.Dispatch.Lasting.{
  idle-Lasting, dispatch-Lasting, charge-Lasting,
}
use minios_lab_edwin_jose.Scheduler.Tick.{
  has_died, settle_dead, settle_alive, settle, finish, switch_to_next, after_wait, preempt, enter,
  tick,
}
use minios_lab_edwin_jose.Scheduler.Tick.Laws.{preempt-rule}

module _ {W D : Type 0} (m : Machine W D) (t : Platform) (s0 : System W D) where
  pub settle_dead-Lasting :
      (prev : ℕ) (s : System W D) → Lasting s0 s → Lasting s0 (settle_dead m t prev s)
  unfolding settle_dead report_terminated emit_terminated
  settle_dead-Lasting prev s h =
      Lasting-put s0 prev (record (s.process_table prev) { state = terminated }) s
        (refl, refl, λ _. refl) h

  pub settle_alive-Lasting :
      (prev : ℕ) (s : System W D)
      → states s prev ≡ running
      → Lasting s0 s
      → Lasting s0 (settle_alive m t prev s)
  unfolding settle_alive
  settle_alive-Lasting prev s a h =
      let p = s.process_table prev in
      Lasting-put s0 prev (record p { state = ready; context_switches = p.context_switches + 1 }) s
        (refl, refl, λ e. absurd (cc (e, a))) h

  settle-Lasting :
      (prev : ℕ) (r : WaitResult) (s : System W D)
      → states s prev ≡ running
      → Lasting s0 s
      → Lasting s0 (settle m t prev r s)
  unfolding settle
  settle-Lasting prev r s a h =
      if-rule (Lasting s0) (has_died (s.process_table prev).pid r) (settle_dead m t prev s)
        (settle_alive m t prev s) (λ _. settle_dead-Lasting prev s h)
        (λ _. settle_alive-Lasting prev s a h)

  finish-Lasting :
      (prev : ℕ) (old : SigMask) (o : Option ℕ) (s : System W D)
      → Lasting s0 s
      → Lasting s0 (finish m t prev old o s)
  unfolding finish emit_switch
  finish-Lasting prev old none s h = idle-Lasting m t s0 s h
  finish-Lasting prev old (some i) s h = h

  switch_to_next-Lasting :
      (prev : ℕ) (old : SigMask) (s : System W D)
      → Lasting s0 s
      → Lasting s0 (switch_to_next m t prev old s)
  unfolding switch_to_next
  switch_to_next-Lasting prev old s h =
      let looped = dispatch m t (ReadyQueue.size s.rq) s in
      if-rule (Lasting s0) (ReadyQueue.is_empty s.rq) (restore_mask old (idle m s))
        (finish m t prev old looped.0 looped.1) (λ _. idle-Lasting m t s0 s h)
        (λ _.
          finish-Lasting prev old looped.0 looped.1
            (dispatch-Lasting m t s0 (ReadyQueue.size s.rq) s h))

  after_wait-Lasting :
      (prev : ℕ) (old : SigMask) (r : WaitResult) (s : System W D)
      → states s prev ≡ running
      → Lasting s0 s
      → Lasting s0 (after_wait m t prev old r s)
  unfolding after_wait clock
  after_wait-Lasting prev old r s a h =
      let s1 = in_world s (m.clock_gettime s.world).1 in
      let paid = charge m prev (m.clock_gettime s.world).0 s1 in
      let same = states-charge m prev (m.clock_gettime s.world).0 s1 in
      switch_to_next-Lasting prev old (settle m t prev r paid) (
        settle-Lasting prev r paid (ap (λ f. f prev) same ∙ a)
          (charge-Lasting m t s0 prev (m.clock_gettime s.world).0 s1 h))

  enter-Lasting :
      (fuel : ℕ) (cur : Option ℕ) (old : SigMask) (s : System W D)
      → ((i : ℕ) → cur ≡ some i → states s i ≡ running)
      → Lasting s0 s
      → Always (Lasting s0) (enter m t fuel cur old s)
  unfolding enter
  enter-Lasting fuel none old s r h = h
  enter-Lasting fuel (some prev) old s r h =
      if-rule (Always (Lasting s0)) s.scheduler_active (preempt m t fuel prev old s)
        (some (restore_mask old s))
        (λ _.
          preempt-rule m t (Lasting s0) fuel prev old s
            (λ a w. after_wait-Lasting prev old a (in_world s w) (r prev refl) h))
        (λ _. h)

pub tick-Lasting :
    {W D : Type 0} (m : Machine W D) (t : Platform) (fuel : ℕ) (s : System W D)
    → WellFormed s
    → Always (Lasting s) (tick m t fuel s)
unfolding tick
tick-Lasting m t fuel s v =
    enter-Lasting m t s fuel s.current_running s.mask (block_chld s) (λ i e. (v.1.current i e).1)
      (Lasting-refl s)
