-- ===== src/Scheduler/Tick/Exclusive.antt =====
-- The handler of SIGALRM leaves all processes but the one that it resumes stopped or ended.
use minios_lab_edwin_jose.Base.{
  ℕ, zero, suc, ◌≡◌, refl, sym, subst, Bool, false, Option, none, some, if-rule, Always, inl, inr,
}
use minios_lab_edwin_jose.Machine.{Machine, WaitResult, child, untraced}
use minios_lab_edwin_jose.Pcb.{terminated}
use minios_lab_edwin_jose.Platform
use minios_lab_edwin_jose.Platform.{Platform}
use minios_lab_edwin_jose.Platform.Laws.{stop_process-kill}
use minios_lab_edwin_jose.ReadyQueue
use minios_lab_edwin_jose.Scheduler.State.{
  System, SigMask, in_world, emit_switch, clock, waitpid, report_terminated, set_state, block_chld,
  restore_mask,
}
use minios_lab_edwin_jose.Scheduler.View.{WellFormed, Switching}
use minios_lab_edwin_jose.Scheduler.Exclusive.{
  Stops, Calm, Calm-trans, Quiet, Quiet-world, Quiet-put, emit_terminated-Quiet, emit_switch-Quiet,
}
use minios_lab_edwin_jose.Scheduler.Dispatch.{charge, idle, dispatch}
use minios_lab_edwin_jose.Scheduler.Dispatch.Charge.{charge-IsSane}
use minios_lab_edwin_jose.Scheduler.Dispatch.Exclusive.{
  dispatch-Quiet, idle-Quiet, charge-Quiet, charge-asleep,
}
use minios_lab_edwin_jose.Scheduler.Tick.{
  wait_stopped, has_died, settle_dead, settle_alive, settle, finish, switch_to_next, after_wait,
  preempt, enter, tick,
}
use minios_lab_edwin_jose.Scheduler.Tick.Laws.{
  interrupted-cases, wait_stopped-again, wait_stopped-done, settle-Switching,
}

module _ {W D : Type 0} (m : Machine W D) (awake : W → ℕ → Bool) (fresh : W → ℕ)
    (law : Stops m awake fresh) where
  -- The wait ends with the process not awake.
  abbrev Stopped : ℕ → System W D → WaitResult × System W D → Type 0
  Stopped pid s p =
      (w : W) × (p.1 ≡ in_world s w) × Calm awake fresh s.world w × (awake w pid ≡ false)

  wait_stopped-Stopped :
      (fuel pid : ℕ) (s : System W D) → Always (Stopped pid s) (wait_stopped m fuel pid s)
  unfolding wait_stopped waitpid
  wait_stopped-Stopped zero pid s = tt
  wait_stopped-Stopped (suc fuel) pid s =
      let w1 = (m.waitpid (child pid) untraced s.world).1 in
      let calm = law.waitpid_calm (child pid) untraced s.world in
      elim (interrupted-cases (waitpid m (child pid) untraced s).0) [
        | inl e ↦ rw (wait_stopped-again m fuel pid s e) (
            later (wait_stopped m fuel pid (in_world s w1)) calm
              (wait_stopped-Stopped fuel pid (in_world s w1)))
        | inr e ↦
            rw (wait_stopped-done m fuel pid s e)
              (w1, refl, calm, law.waitpid_untraced pid s.world e)
      ]
    where
      later :
          (o : Option (WaitResult × System W D)) {w1 : W}
          → Calm awake fresh s.world w1
          → Always (Stopped pid (in_world s w1)) o
          → Always (Stopped pid s) o
      later none calm h = tt
      later (some p) {w1} calm (w, e, calm1, still) =
          (w, e, Calm-trans awake fresh s.world w1 w calm calm1, still)

module _ {W D : Type 0} (m : Machine W D) (t : Platform) (awake : W → ℕ → Bool) (fresh : W → ℕ)
    (law : Stops m awake fresh) where
  settle-Quiet :
      (prev : ℕ) (r : WaitResult) (s : System W D)
      → awake s.world (s.process_table prev).pid ≡ false
      → Quiet awake fresh s
      → Quiet awake fresh (settle m t prev r s)
  unfolding settle settle_dead settle_alive report_terminated
  settle-Quiet prev r s still q =
      if-rule (Quiet awake fresh) (has_died (s.process_table prev).pid r) (settle_dead m t prev s)
        (settle_alive m t prev s)
        (λ _.
          emit_terminated-Quiet m awake fresh law _ _ _ (set_state prev terminated s)
            (Quiet-put awake fresh prev _ s refl (λ _ _. still) q))
        (λ _. Quiet-put awake fresh prev _ s refl (λ _ _. still) q)

  finish-Quiet :
      (prev : ℕ) (old : SigMask) (o : Option ℕ) (s : System W D)
      → Quiet awake fresh s
      → Quiet awake fresh (finish m t prev old o s)
  unfolding finish emit_switch
  finish-Quiet prev old none s q = idle-Quiet m t awake fresh law s q
  finish-Quiet prev old (some i) s q = emit_switch-Quiet m awake fresh law _ _ _ s q

  switch_to_next-Quiet :
      (prev : ℕ) (old : SigMask) (s : System W D)
      → Switching s
      → Quiet awake fresh s
      → Quiet awake fresh (switch_to_next m t prev old s)
  unfolding switch_to_next
  switch_to_next-Quiet prev old s h q =
      let looped = dispatch m t (ReadyQueue.size s.rq) s in
      if-rule (Quiet awake fresh) (ReadyQueue.is_empty s.rq) (restore_mask old (idle m s))
        (finish m t prev old looped.0 looped.1) (λ _. idle-Quiet m t awake fresh law s q)
        (λ _.
          finish-Quiet prev old looped.0 looped.1
            (dispatch-Quiet m t awake fresh law (ReadyQueue.size s.rq) s h q))

  after_wait-Quiet :
      (prev : ℕ) (old : SigMask) (r : WaitResult) (s : System W D)
      → s.current_running ≡ some prev
      → WellFormed s
      → awake s.world (s.process_table prev).pid ≡ false
      → Quiet awake fresh s
      → Quiet awake fresh (after_wait m t prev old r s)
  unfolding after_wait clock
  after_wait-Quiet prev old r s c h still q =
      let (now, s1) = clock m s in
      let calm = law.clock_gettime_calm s.world in
      let paid = charge m prev now s1 in
      let sane = charge-IsSane m prev now s1 (some prev) s.scheduler_active (h.0, rw (← c) h.1) in
      switch_to_next-Quiet prev old (settle m t prev r paid)
        (settle-Switching m t prev paid sane.0 sane.1 r)
        (settle-Quiet prev r paid
          (charge-asleep m t awake fresh law prev now s1 prev
            (calm.0 (s.process_table prev).pid still))
          (charge-Quiet m t awake fresh law prev now s1
            (Quiet-world awake fresh s s1.world calm q)))

  preempt-Quiet :
      (fuel prev : ℕ) (old : SigMask) (s : System W D)
      → s.current_running ≡ some prev
      → WellFormed s
      → Quiet awake fresh s
      → Always (Quiet awake fresh) (preempt m t fuel prev old s)
  unfolding preempt
  preempt-Quiet fuel prev old s c h q =
      go (wait_stopped m fuel pid stopped) (wait_stopped-Stopped m awake fresh law fuel pid stopped)
    where
      pid : ℕ
      pid = (s.process_table prev).pid

      stopped : System W D
      stopped = in_world s (Platform.stop_process m t pid s.world).1

      calm : Calm awake fresh s.world stopped.world
      calm =
          subst (λ r. Calm awake fresh s.world r.1) (sym (stop_process-kill m t pid s.world))
            (law.sigstop_calm pid s.world)

      go :
          (o : Option (WaitResult × System W D))
          → Always (Stopped m awake fresh law pid stopped) o
          → Always
              (Quiet awake fresh)
              (elim o [ none ↦ none | some (r, s2) ↦ some (after_wait m t prev old r s2) ])
      go none k = tt
      go (some (r, s2)) (w, e, calm1, still) =
          subst (λ x. Quiet awake fresh (after_wait m t prev old r x)) (sym e)
            (after_wait-Quiet prev old r (in_world s w) c h still (
              Quiet-world awake fresh s w
                (Calm-trans awake fresh s.world stopped.world w calm calm1) q))

  enter-Quiet :
      (fuel : ℕ) (cur : Option ℕ) (old : SigMask) (s : System W D)
      → s.current_running ≡ cur
      → WellFormed s
      → Quiet awake fresh s
      → Always (Quiet awake fresh) (enter m t fuel cur old s)
  unfolding enter
  enter-Quiet fuel none old s c h q = q
  enter-Quiet fuel (some prev) old s c h q =
      if-rule (Always (Quiet awake fresh)) s.scheduler_active (preempt m t fuel prev old s)
        (some (restore_mask old s)) (λ _. preempt-Quiet fuel prev old s c h q) (λ _. q)

  pub tick-Quiet :
      (fuel : ℕ) (s : System W D)
      → WellFormed s
      → Quiet awake fresh s
      → Always (Quiet awake fresh) (tick m t fuel s)
  unfolding tick
  tick-Quiet fuel s h q = enter-Quiet fuel s.current_running s.mask (block_chld s) refl h q
