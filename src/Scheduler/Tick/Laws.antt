-- ===== src/Scheduler/Tick/Laws.antt =====
-- The handler of SIGALRM keeps the scheduler well formed, whatever the kernel answers, and gives
-- back the signal mask on every path.
use minios_lab_edwin_jose.Base.{
  ℕ, zero, suc, ◌+◌, ◌<◌, ◌≡◌, ◌≢◌, refl, sym, subst, ◌∙◌, Bool, true, Option, none, some, [], ◌∷◌,
  ◌++◌, arith, Bool-cases, if-rule, Always, ◌⊎◌, inl, inr, length, without-Absent, contains,
  without,
}
use minios_lab_edwin_jose.Machine.{
  Machine, WaitResult, interrupted, failed, not_yet, changed, child, untraced,
}
use minios_lab_edwin_jose.Fifo.{max_processes}
use minios_lab_edwin_jose.Platform
use minios_lab_edwin_jose.Platform.{Platform}
use minios_lab_edwin_jose.RoundRobin.{IsSane, requeue, end_current, room, current-Absent}
use minios_lab_edwin_jose.ReadyQueue
use minios_lab_edwin_jose.ReadyQueue.Contents.{
  IsRing, contents, contents-enqueue, contents-remove, length-contents, size-count,
}
use minios_lab_edwin_jose.Scheduler.State.{
  System, SigMask, in_world, clock, waitpid, report_terminated, emit_switch, block_chld,
  restore_mask,
}
use minios_lab_edwin_jose.Scheduler.View.{states, WellFormed, Switching, states-put, IsBetween-cast}
use minios_lab_edwin_jose.Scheduler.Dispatch.{charge}
use minios_lab_edwin_jose.Scheduler.Dispatch.Charge.{frame-charge, charge-IsSane}
use minios_lab_edwin_jose.Scheduler.Dispatch.Laws.{
  Dispatched, dispatch_lem, frame-dispatch, idle-WellFormed,
}
use minios_lab_edwin_jose.Scheduler.Tick.{
  wait_stopped, has_died, settle_dead, settle_alive, settle, finish, switch_to_next, after_wait,
  preempt, enter, tick,
}

module _ {W D : Type 0} (m : Machine W D) (t : Platform) where
  module _ (prev : ℕ) (s : System W D) {act : Bool} (ring : IsRing s.rq)
      (h : IsSane (states s) s.process_count (contents s.rq) (some prev) act) where
    pub settle_alive-queue :
        let s' = settle_alive m t prev s in
        (contents s'.rq ≡ contents s.rq ++ prev ∷ []) × Switching s'
    unfolding settle_alive
    settle_alive-queue = (
      entered.1,
      IsBetween-cast (states-put prev _ s) refl refl (entered.2, rw entered.1 (requeue h)),
    )
      where
        space : length (contents s.rq) < max_processes
        space =
            room (states s) s.process_count prev (contents s.rq) (h.current prev refl).0
              (current-Absent h) h.queue

        entered :
            let (done, q) = ReadyQueue.enqueue prev s.rq in
            (done ≡ true)
            × (contents q ≡ contents s.rq ++ prev ∷ [])
            × IsRing q
            × (q.count ≡ s.rq.count + 1)
        entered = contents-enqueue prev ring (omega (arith, space, length-contents s.rq))

    pub settle_dead-queue :
        let s' = settle_dead m t prev s in (contents s'.rq ≡ contents s.rq) × Switching s'
    unfolding settle_dead report_terminated
    settle_dead-queue =
        (same, IsBetween-cast (states-put prev _ s) refl refl (left.2, rw same (end_current h)))
      where
        left :
            let (found, q) = ReadyQueue.remove prev s.rq in
            (found ≡ contains prev (contents s.rq))
            × (contents q ≡ without prev (contents s.rq))
            × IsRing q
        left = contents-remove prev ring

        same : contents (ReadyQueue.remove prev s.rq).1 ≡ contents s.rq
        same = left.1 ∙ without-Absent prev (contents s.rq) (current-Absent h)

    pub settle-Switching : (r : WaitResult) → Switching (settle m t prev r s)
    unfolding settle
    settle-Switching r = elim (Bool-cases (has_died (s.process_table prev).pid r)) [
      | inl dead ↦ rw dead settle_dead-queue.1
      | inr alive ↦ rw alive settle_alive-queue.1
    ]

  -- After the loop: the process that was resumed becomes the current one, or the system goes idle.
  finish-WellFormed :
      (prev : ℕ) (old : SigMask) (next : Option ℕ) (s : System W D)
      → s.scheduler_active ≡ true
      → Dispatched next s
      → WellFormed (finish m t prev old next s)
  unfolding finish emit_switch
  finish-WellFormed prev old none s a h = idle-WellFormed m s h.0
  finish-WellFormed prev old (some i) s a h = (h.0, rw a h.1)

  switch_to_next-WellFormed :
      (prev : ℕ) (old : SigMask) (s : System W D)
      → s.scheduler_active ≡ true
      → Switching s
      → WellFormed (switch_to_next m t prev old s)
  unfolding switch_to_next
  switch_to_next-WellFormed prev old s a h = elim (Bool-cases (ReadyQueue.is_empty s.rq)) [
    | inl e ↦ rw e (idle-WellFormed m s h)
    | inr e ↦ rw e (
        finish-WellFormed prev old _ _ (frame-dispatch m t (ReadyQueue.size s.rq) s ∙ a)
          (dispatch_lem m t (ReadyQueue.size s.rq) s (size-count s.rq) h).0)
  ]

  pub active-settle :
      (prev : ℕ) (r : WaitResult) (s : System W D)
      → (settle m t prev r s).scheduler_active ≡ s.scheduler_active
  unfolding settle settle_dead settle_alive report_terminated
  active-settle prev r s = ground arith

  after_wait-WellFormed :
      (prev : ℕ) (old : SigMask) (r : WaitResult) (s : System W D)
      → s.current_running ≡ some prev
      → s.scheduler_active ≡ true
      → WellFormed s
      → WellFormed (after_wait m t prev old r s)
  unfolding after_wait clock
  after_wait-WellFormed prev old r s c a h =
      let (now, s1) = clock m s in
      let paid = charge-IsSane m prev now s1 (some prev) s.scheduler_active (h.0, rw (← c) h.1) in
      switch_to_next-WellFormed prev old (settle m t prev r (charge m prev now s1))
        (active-settle prev r (charge m prev now s1) ∙ (frame-charge m prev now s1).3 ∙ a)
        (settle-Switching prev (charge m prev now s1) paid.0 paid.1 r)

  mask-finish :
      (prev : ℕ) (old : SigMask) (next : Option ℕ) (s : System W D)
      → (finish m t prev old next s).mask ≡ old
  unfolding finish
  mask-finish prev old none s = refl
  mask-finish prev old (some i) s = refl

  mask-switch_to_next :
      (prev : ℕ) (old : SigMask) (s : System W D) → (switch_to_next m t prev old s).mask ≡ old
  unfolding switch_to_next
  mask-switch_to_next prev old s = elim (Bool-cases (ReadyQueue.is_empty s.rq)) [
    | inl e ↦ rw e refl
    | inr e ↦ rw e (mask-finish prev old _ _)
  ]

  mask-after_wait :
      (prev : ℕ) (old : SigMask) (r : WaitResult) (s : System W D)
      → (after_wait m t prev old r s).mask ≡ old
  unfolding after_wait
  mask-after_wait prev old r s = mask-switch_to_next prev old _

-- A wait that is not interrupted ends the loop; one that is goes round again.
pub interrupted-cases : (r : WaitResult) → (r ≡ interrupted) ⊎ (r ≢ interrupted)
interrupted-cases interrupted = inl refl
interrupted-cases failed = inr (λ e. cc)
interrupted-cases not_yet = inr (λ e. cc)
interrupted-cases (changed pid status) = inr (λ e. cc)

module _ {W D : Type 0} (m : Machine W D) where
  module _ (fuel pid : ℕ) (s : System W D) where
    pub wait_stopped-again :
        (waitpid m (child pid) untraced s).0 ≡ interrupted
        → wait_stopped m (suc fuel) pid s
          ≡ wait_stopped m fuel pid (waitpid m (child pid) untraced s).1
    unfolding wait_stopped
    wait_stopped-again e = ground arith

    pub wait_stopped-done :
        (waitpid m (child pid) untraced s).0 ≢ interrupted
        → wait_stopped m (suc fuel) pid s ≡ some (waitpid m (child pid) untraced s)
    unfolding wait_stopped
    wait_stopped-done ne = ground arith

  -- The wait returns what some call of `waitpid` for the process answered, and leaves the world after it.
  abbrev pub Answered : ℕ → System W D → WaitResult × System W D → Type 0
  Answered pid s (r, s') =
      (w : W) × ((m.waitpid (child pid) untraced w).0 ≡ r)
      × (s' ≡ in_world s (m.waitpid (child pid) untraced w).1)

  wait_stopped-Answered :
      (fuel pid : ℕ) (s : System W D) → Always (Answered pid s) (wait_stopped m fuel pid s)
  unfolding wait_stopped waitpid
  wait_stopped-Answered zero pid s = tt
  wait_stopped-Answered (suc fuel) pid s =
      elim (interrupted-cases (waitpid m (child pid) untraced s).0) [
        | inl e ↦
            rw (wait_stopped-again fuel pid s e)
              (wait_stopped-Answered fuel pid (waitpid m (child pid) untraced s).1)
        | inr e ↦ rw (wait_stopped-done fuel pid s e) (s.world, refl, refl)
      ]

module _ {W D : Type 0} (m : Machine W D) (t : Platform) where
  -- A condition that `after_wait` establishes from what `waitpid` answers in any world holds of what `preempt`
  -- returns.
  pub preempt-answered {ℓ} :
      (P : System W D → Type ℓ) (fuel prev : ℕ) (old : SigMask) (s : System W D)
      → ((w : W)
          → let (r, w1) = m.waitpid (child (s.process_table prev).pid) untraced w in
            P (after_wait m t prev old r (in_world s w1)))
      → Always P (preempt m t fuel prev old s)
  unfolding preempt
  preempt-answered P fuel prev old s f =
      go (wait_stopped m fuel (s.process_table prev).pid stopped)
        (wait_stopped-Answered m fuel (s.process_table prev).pid stopped)
    where
      stopped : System W D
      stopped = in_world s (Platform.stop_process m t (s.process_table prev).pid s.world).1

      go :
          (o : Option (WaitResult × System W D))
          → Always (Answered m (s.process_table prev).pid stopped) o
          → Always P (elim o [ none ↦ none | some (r, s2) ↦ some (after_wait m t prev old r s2) ])
      go none h = tt
      go (some (r, s2)) (w, e, e1) =
          subst (λ x. P (after_wait m t prev old r x)) (sym e1)
            (subst
              (λ x. P (
                after_wait m t prev old x
                  (in_world s (m.waitpid (child (s.process_table prev).pid) untraced w).1)))
              e (f w))

  -- As above, whatever the answer is.
  pub preempt-rule {ℓ} :
      (P : System W D → Type ℓ) (fuel prev : ℕ) (old : SigMask) (s : System W D)
      → ((r : WaitResult) (w : W) → P (after_wait m t prev old r (in_world s w)))
      → Always P (preempt m t fuel prev old s)
  preempt-rule P fuel prev old s f =
      preempt-answered P fuel prev old s
        (λ w. let (r, w1) = m.waitpid (child (s.process_table prev).pid) untraced w in f r w1)

  enter-WellFormed :
      (fuel : ℕ) (cur : Option ℕ) (old : SigMask) (s : System W D)
      → s.current_running ≡ cur
      → WellFormed s
      → Always WellFormed (enter m t fuel cur old s)
  unfolding enter
  enter-WellFormed fuel none old s e h = h
  enter-WellFormed fuel (some prev) old s e h =
      if-rule (Always WellFormed) s.scheduler_active (preempt m t fuel prev old s)
        (some (restore_mask old s))
        (λ a.
          preempt-rule WellFormed fuel prev old s
            (λ r w. after_wait-WellFormed m t prev old r (in_world s w) e a h))
        (λ _. h)

  -- Every tick, whatever the kernel answers and however the queue looks, leaves a well-formed system.
  pub tick-WellFormed :
      (fuel : ℕ) (s : System W D) → WellFormed s → Always WellFormed (tick m t fuel s)
  unfolding tick
  tick-WellFormed fuel s h = enter-WellFormed fuel s.current_running s.mask (block_chld s) refl h

  enter-mask :
      (fuel : ℕ) (cur : Option ℕ) (old : SigMask) (s : System W D)
      → Always (λ (s' : System W D). s'.mask ≡ old) (enter m t fuel cur old s)
  unfolding enter
  enter-mask fuel none old s = refl
  enter-mask fuel (some prev) old s =
      if-rule (Always (λ (s' : System W D). s'.mask ≡ old)) s.scheduler_active
        (preempt m t fuel prev old s) (some (restore_mask old s))
        (λ a.
          preempt-rule (λ s'. s'.mask ≡ old) fuel prev old s
            (λ r w. mask-after_wait m t prev old r (in_world s w)))
        (λ _. refl)

  -- Every path through the handler gives back the signal mask that it found.
  pub tick-mask :
      (fuel : ℕ) (s : System W D) → Always (λ (s' : System W D). s'.mask ≡ s.mask) (tick m t fuel s)
  unfolding tick
  tick-mask fuel s = enter-mask fuel s.current_running s.mask (block_chld s)
