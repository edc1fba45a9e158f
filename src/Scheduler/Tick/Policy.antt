-- ===== src/Scheduler/Tick/Policy.antt =====
-- The queue that the handler of SIGALRM leaves.
use minios_lab_edwin_jose.Base.{
  ℕ, ◌≡◌, true, false, refl, sym, ap, subst, ◌∙◌, Option, none, some, List, [], ◌∷◌, ◌++◌,
  Bool-cases, inl, inr, ◌⊎◌, if-rule,
}
use minios_lab_edwin_jose.Machine.{Machine, WaitResult}
use minios_lab_edwin_jose.Platform.{Platform}
use minios_lab_edwin_jose.RoundRobin.Policy.{Dispatches, nobody}
use minios_lab_edwin_jose.ReadyQueue
use minios_lab_edwin_jose.ReadyQueue.Contents.{contents, size-count}
use minios_lab_edwin_jose.Scheduler.State.{System, SigMask, clock, emit_switch}
use minios_lab_edwin_jose.Scheduler.View.{WellFormed, Switching}
use minios_lab_edwin_jose.Scheduler.Dispatch.{charge, dispatch}
use minios_lab_edwin_jose.Scheduler.Dispatch.Charge.{frame-charge, charge-IsSane}
use minios_lab_edwin_jose.Scheduler.Lasting.{Lasting}
use minios_lab_edwin_jose.Scheduler.Dispatch.Lasting.{charge-Lasting}
use minios_lab_edwin_jose.Scheduler.Tick.Lasting.{settle_dead-Lasting, settle_alive-Lasting}
use minios_lab_edwin_jose.Scheduler.Dispatch.Policy.{
  Answers, idle-queue, is_empty-contents, dispatch-Dispatches,
}
use minios_lab_edwin_jose.Scheduler.Tick.{
  has_died, settle_dead, settle_alive, settle, finish, switch_to_next, after_wait,
}
use minios_lab_edwin_jose.Scheduler.Tick.Laws.{settle_alive-queue, settle_dead-queue}

module _ {W D : Type 0} (m : Machine W D) (t : Platform) (s0 : System W D) where
  -- The queue and the running process that are left.
  abbrev pub Leaves : List ℕ → System W D → Type 0
  Leaves q s =
      Dispatches (Answers m s0 false) (Answers m s0 true) q (contents s.rq) s.current_running

  finish-Leaves :
      (q : List ℕ) (prev : ℕ) (old : SigMask) (next : Option ℕ) (s : System W D)
      → Dispatches (Answers m s0 false) (Answers m s0 true) q (contents s.rq) next
      → Leaves q (finish m t prev old next s)
  unfolding finish emit_switch
  finish-Leaves q prev old none s d = let (queue, cur) = idle-queue m s in rw (queue, cur) d
  finish-Leaves q prev old (some i) s d = d

  switch_to_next-Leaves :
      (prev : ℕ) (old : SigMask) (s : System W D)
      → Switching s
      → Lasting s0 s
      → Leaves (contents s.rq) (switch_to_next m t prev old s)
  unfolding switch_to_next
  switch_to_next-Leaves prev old s h kept = elim (Bool-cases (ReadyQueue.is_empty s.rq)) [
    | inl e ↦
        let (queue, cur) = idle-queue m s in
        let drained = is_empty-contents s e in rw (e, queue, cur, drained) nobody
    | inr e ↦ rw e (
        finish-Leaves (contents s.rq) prev old (dispatch m t (ReadyQueue.size s.rq) s).0
          (dispatch m t (ReadyQueue.size s.rq) s).1
          (dispatch-Dispatches m t s0 (ReadyQueue.size s.rq) s (size-count s.rq) h kept))
  ]

  -- What is dispatched once the wait for process `prev` has returned `r`: the queue, and behind it the process,
  -- unless it was reported to have ended.
  abbrev pub Waited : ℕ → WaitResult → List ℕ → System W D → Type 0
  Waited prev r q s =
      ((has_died (s0.process_table prev).pid r ≡ true) × Leaves q s)
      ⊎ ((has_died (s0.process_table prev).pid r ≡ false) × Leaves (q ++ prev ∷ []) s)

  pub after_wait-Waited :
      (prev : ℕ) (old : SigMask) (r : WaitResult) (s : System W D)
      → s.current_running ≡ some prev
      → WellFormed s
      → Lasting s0 s
      → Waited prev r (contents s.rq) (after_wait m t prev old r s)
  unfolding after_wait settle clock
  after_wait-Waited prev old r s c h kept =
      let (now, s1) = clock m s in
      let paid = charge m prev now s1 in
      let same : contents paid.rq ≡ contents s.rq = ap contents (frame-charge m prev now s1).0 in
      let (ring, sane) =
        charge-IsSane m prev now s1 (some prev) s.scheduler_active (h.0, rw (← c) h.1) in
      let paid_kept : Lasting s0 paid = charge-Lasting m t s0 prev now s1 kept in
      let pid = ap (λ p. has_died p r) (sym (paid_kept.1 prev).0) in
      let dead = settle_dead m t prev paid in
      let alive = settle_alive m t prev paid in
      let (dead_queue, dead_switching) = settle_dead-queue m t prev paid ring sane in
      let (alive_queue, alive_switching) = settle_alive-queue m t prev paid ring sane in
      if-rule (λ x. Waited prev r (contents s.rq) (switch_to_next m t prev old x))
        (has_died (paid.process_table prev).pid r) dead alive
        (λ e. inl (
          pid ∙ e,
          subst (λ q. Leaves q (switch_to_next m t prev old dead)) (dead_queue ∙ same)
              (switch_to_next-Leaves prev old dead dead_switching
                (settle_dead-Lasting m t s0 prev paid paid_kept)),
        ))
        (λ e. inr (
          pid ∙ e,
          subst (λ q. Leaves q (switch_to_next m t prev old alive))
              (alive_queue ∙ ap (λ q. q ++ prev ∷ []) same)
              (switch_to_next-Leaves prev old alive alive_switching
                (settle_alive-Lasting m t s0 prev paid (sane.current prev refl).1 paid_kept)),
        ))
