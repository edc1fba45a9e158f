-- ===== src/Scheduler/Sigchld/Laws.antt =====
-- The handler of SIGCHLD keeps the scheduler well formed, and gives back the signal mask.
use minios_lab_edwin_jose.Base.{
  ℕ, zero, suc, ◌≡◌, ◌≢◌, refl, sym, ap, ◌∙◌, true, false, Option, none, some, if◌then◌else◌, arith,
  if-rule, is_some, Always, without-Absent,
}
use minios_lab_edwin_jose.Machine.{
  Machine, WaitStatus, WaitResult, interrupted, failed, not_yet, changed, any_child, nohang,
  is_dead,
}
use minios_lab_edwin_jose.Pcb.{is_terminated}
use minios_lab_edwin_jose.Platform.{Platform}
use minios_lab_edwin_jose.RoundRobin.{IsSane, end_current, end_other, current-Absent}
use minios_lab_edwin_jose.ReadyQueue
use minios_lab_edwin_jose.ReadyQueue.Contents.{contents, contents-remove, size-count}
use minios_lab_edwin_jose.Scheduler.State.{
  System, in_world, clock, waitpid, emit_terminated, emit_switch, block_alrm, restore_mask,
}
use minios_lab_edwin_jose.Scheduler.View.{
  states, WellFormed, Switching, states-put, IsSane-cast, IsBetween-cast,
}
use minios_lab_edwin_jose.Scheduler.Dispatch.{charge, idle, dispatch}
use minios_lab_edwin_jose.Scheduler.Dispatch.Charge.{charge-WellFormed}
use minios_lab_edwin_jose.Scheduler.Dispatch.Laws.{
  Dispatched, dispatch_lem, frame-dispatch, idle-WellFormed,
}
use minios_lab_edwin_jose.Scheduler.Sigchld.{
  find_pid, is_current, resumed, replace_running, mark_dead, reap_process, reap_found, reap,
  reap_all, sigchld,
}

pub is_current-true :
    {W D : Type 0} (idx : ℕ) (s : System W D)
    → is_current idx s ≡ true
    → s.current_running ≡ some idx
is_current-true idx s e = ground arith

is_current-false :
    {W D : Type 0} (idx : ℕ) (s : System W D)
    → is_current idx s ≡ false
    → s.current_running ≢ some idx
is_current-false idx s e k = ground arith

module _ {W D : Type 0} (m : Machine W D) (t : Platform) where
  resumed-WellFormed :
      (pid : ℕ) (next : Option ℕ) (s : System W D)
      → s.scheduler_active ≡ true
      → Dispatched next s
      → WellFormed (resumed m t pid next s)
  unfolding resumed emit_switch
  resumed-WellFormed pid none s a h = idle-WellFormed m s h.0
  resumed-WellFormed pid (some i) s a h = (h.0, rw a h.1)

  replace_running-WellFormed :
      (pid : ℕ) (s : System W D)
      → s.scheduler_active ≡ true
      → Switching s
      → WellFormed (replace_running m t pid s)
  unfolding replace_running
  replace_running-WellFormed pid s a h =
      if-rule WellFormed (ReadyQueue.is_empty s.rq) (idle m cleared)
        (resumed m t pid looped.0 looped.1) (λ _. idle-WellFormed m cleared h)
        (λ _.
          resumed-WellFormed pid looped.0 looped.1
            (frame-dispatch m t (ReadyQueue.size s.rq) cleared ∙ a)
            (dispatch_lem m t (ReadyQueue.size s.rq) cleared (size-count s.rq) h).0)
    where
      cleared : System W D
      cleared = record s { current_running = none }

      looped : Option ℕ × System W D
      looped = dispatch m t (ReadyQueue.size s.rq) cleared

  -- The running process has ended: what is left waits, and nothing runs.
  pub mark_dead-Switching :
      (pid idx : ℕ) (s : System W D)
      → s.current_running ≡ some idx
      → WellFormed s
      → Switching (mark_dead m t pid idx s)
  unfolding mark_dead emit_terminated
  mark_dead-Switching pid idx s c h =
      let sane : IsSane (states s) s.process_count (contents s.rq) (some idx) s.scheduler_active =
        rw (← c) h.1 in
      let (found, left, ring) = contents-remove idx h.0 in
      let same = left ∙ without-Absent idx (contents s.rq) (current-Absent sane) in
      IsBetween-cast (states-put idx _ s) refl refl (ring, rw same (end_current sane))

  -- Another process has ended: it is no longer in the queue.
  mark_dead-WellFormed :
      (pid idx : ℕ) (s : System W D)
      → s.current_running ≢ some idx
      → WellFormed s
      → WellFormed (mark_dead m t pid idx s)
  unfolding mark_dead emit_terminated
  mark_dead-WellFormed pid idx s ne h =
      let (found, left, ring) = contents-remove idx h.0 in
      IsSane-cast (states-put idx _ s) refl refl (ring, rw left (end_other idx ne h.1))

  pub frame-mark_dead :
      (pid idx : ℕ) (s : System W D)
      → ((mark_dead m t pid idx s).current_running ≡ s.current_running)
        × ((mark_dead m t pid idx s).scheduler_active ≡ s.scheduler_active)
  unfolding mark_dead emit_terminated
  frame-mark_dead pid idx s = (refl, refl)

  reap_process-WellFormed :
      (pid idx : ℕ) (s : System W D) → WellFormed s → WellFormed (reap_process m t pid idx s)
  unfolding reap_process clock
  reap_process-WellFormed pid idx s h =
      if-rule WellFormed (is_current idx dead) (replace_running m t pid dead) dead
        (λ e.
          let c = sym (frame-mark_dead pid idx paid).0 ∙ is_current-true idx dead e in
          replace_running-WellFormed pid dead
            ((frame-mark_dead pid idx paid).1 ∙ (paid-WellFormed.1.active ∙ ap is_some c))
            (mark_dead-Switching pid idx paid c paid-WellFormed))
        (λ e.
          mark_dead-WellFormed pid idx paid
            (λ c. is_current-false idx dead e ((frame-mark_dead pid idx paid).0 ∙ c))
            paid-WellFormed)
    where
      s1 : System W D
      s1 = (clock m s).1

      paid : System W D
      paid = if is_current idx s1 then charge m idx (clock m s).0 s1 else s1

      paid-WellFormed : WellFormed paid
      paid-WellFormed =
          if-rule WellFormed (is_current idx s1) (charge m idx (clock m s).0 s1) s1
            (λ _. charge-WellFormed m idx (clock m s).0 s1 h) (λ _. h)

      dead : System W D
      dead = mark_dead m t pid idx paid

  -- What the round does with an index that the search may have found.
  pub reap-WellFormed :
      (pid : ℕ) (status : WaitStatus) (s : System W D)
      → WellFormed s
      → WellFormed (reap m t pid status s)
  unfolding reap reap_found
  reap-WellFormed pid status s h =
      if-rule WellFormed (is_dead status)
        (reap_found m t pid (find_pid s.process_count 0 pid (λ i. (s.process_table i).pid)) s) s
        (λ _. found (find_pid s.process_count 0 pid (λ i. (s.process_table i).pid))) (λ _. h)
    where
      found : (o : Option ℕ) → WellFormed (reap_found m t pid o s)
      found none = h
      found (some idx) =
          if-rule WellFormed (is_terminated (s.process_table idx).state) s
            (reap_process m t pid idx s) (λ _. h) (λ _. reap_process-WellFormed pid idx s h)

  reap_all-WellFormed :
      (fuel : ℕ) (s : System W D) → WellFormed s → Always WellFormed (reap_all m t fuel s)
  unfolding reap_all waitpid
  reap_all-WellFormed zero s h = tt
  reap_all-WellFormed (suc fuel) s h =
      answered
        (λ pid status.
          reap_all-WellFormed fuel (reap m t pid status s1) (reap-WellFormed pid status s1 h))
        (m.waitpid any_child nohang s.world).0
    where
      s1 : System W D
      s1 = in_world s (m.waitpid any_child nohang s.world).1

      answered :
          ((pid : ℕ) (status : WaitStatus)
            → Always WellFormed (reap_all m t fuel (reap m t pid status s1)))
          → (r : WaitResult)
          → Always WellFormed (elim r [
            | changed pid status ↦ reap_all m t fuel (reap m t pid status s1)
            | _ ↦ some s1
          ])
      answered again interrupted = h
      answered again failed = h
      answered again not_yet = h
      answered again (changed pid status) = again pid status

  -- The handler of SIGCHLD leaves a well-formed system, however many children have ended, whether or
  -- not they are in the table, and whatever the kernel answers.
  pub sigchld-WellFormed :
      (fuel : ℕ) (s : System W D) → WellFormed s → Always WellFormed (sigchld m t fuel s)
  unfolding sigchld
  sigchld-WellFormed fuel s h =
      restored (reap_all m t fuel (block_alrm s)) (reap_all-WellFormed fuel (block_alrm s) h)
    where
      restored :
          (o : Option (System W D))
          → Always WellFormed o
          → Always WellFormed (elim o [ none ↦ none | some s1 ↦ some (restore_mask s.mask s1) ])
      restored none h1 = tt
      restored (some s1) h1 = h1
