-- ===== src/Scheduler/Sigchld/Lasting.antt =====
-- The handler of SIGCHLD takes nothing back: the table keeps its processes, and TERMINATED ones stay so.
use minios_lab_edwin_jose.Base.{
  ℕ, zero, suc, ◌≡◌, refl, Option, none, some, if◌then◌else◌, if-rule, Always,
}
use minios_lab_edwin_jose.Machine.{
  Machine, Timespec, WaitStatus, WaitResult, is_dead, interrupted, failed, not_yet, changed,
  any_child, nohang,
}
use minios_lab_edwin_jose.Pcb.{terminated, is_terminated}
use minios_lab_edwin_jose.Platform.{Platform}
use minios_lab_edwin_jose.ReadyQueue
use minios_lab_edwin_jose.Scheduler.State.{
  System, in_world, emit_terminated, emit_switch, clock, waitpid, block_alrm, restore_mask,
}
use minios_lab_edwin_jose.Scheduler.Lasting.{Lasting, Lasting-put, Lasting-refl}
use minios_lab_edwin_jose.Scheduler.Dispatch.{charge, idle, dispatch}
use minios_lab_edwin_jose.Scheduler.Dispatch.Lasting.{
  dispatch-Lasting, idle-Lasting, charge-Lasting,
}
use minios_lab_edwin_jose.Scheduler.Sigchld.{
  is_current, resumed, replace_running, mark_dead, reap_process, reap_found, reap, reap_all,
  sigchld, find_pid,
}

module _ {W D : Type 0} (m : Machine W D) (t : Platform) (s0 : System W D) where
  resumed-Lasting :
      (pid : ℕ) (o : Option ℕ) (s : System W D) → Lasting s0 s → Lasting s0 (resumed m t pid o s)
  unfolding resumed emit_switch
  resumed-Lasting pid none s h = idle-Lasting m t s0 s h
  resumed-Lasting pid (some i) s h = h

  pub replace_running-Lasting :
      (pid : ℕ) (s : System W D) → Lasting s0 s → Lasting s0 (replace_running m t pid s)
  unfolding replace_running
  replace_running-Lasting pid s h =
      let cleared = record s { current_running = none } in
      let looped = dispatch m t (ReadyQueue.size s.rq) cleared in
      if-rule (Lasting s0) (ReadyQueue.is_empty s.rq) (idle m cleared)
        (resumed m t pid looped.0 looped.1) (λ _. idle-Lasting m t s0 cleared h)
        (λ _.
          resumed-Lasting pid looped.0 looped.1
            (dispatch-Lasting m t s0 (ReadyQueue.size s.rq) cleared h))

  mark_dead-Lasting :
      (pid idx : ℕ) (s : System W D) → Lasting s0 s → Lasting s0 (mark_dead m t pid idx s)
  unfolding mark_dead emit_terminated
  mark_dead-Lasting pid idx s h =
      Lasting-put s0 idx (record (s.process_table idx) { state = terminated }) s
        (refl, refl, λ _. refl) h

  charged-Lasting :
      (idx : ℕ) (now : Timespec) (s : System W D)
      → Lasting s0 s
      → Lasting s0 (if is_current idx s then charge m idx now s else s)
  charged-Lasting idx now s h =
      if-rule (Lasting s0) (is_current idx s) (charge m idx now s) s
        (λ _. charge-Lasting m t s0 idx now s h) (λ _. h)

  reap_process-Lasting :
      (pid idx : ℕ) (s : System W D) → Lasting s0 s → Lasting s0 (reap_process m t pid idx s)
  unfolding reap_process clock
  reap_process-Lasting pid idx s h =
      let s1 = in_world s (m.clock_gettime s.world).1 in
      let now = (m.clock_gettime s.world).0 in
      let paid = if is_current idx s1 then charge m idx now s1 else s1 in
      let dead = mark_dead m t pid idx paid in
      let kept = mark_dead-Lasting pid idx paid (charged-Lasting idx now s1 h) in
      if-rule (Lasting s0) (is_current idx dead) (replace_running m t pid dead) dead
        (λ _. replace_running-Lasting pid dead kept) (λ _. kept)

  reap-Lasting :
      (pid : ℕ) (status : WaitStatus) (s : System W D)
      → Lasting s0 s
      → Lasting s0 (reap m t pid status s)
  unfolding reap reap_found
  reap-Lasting pid status s h =
      if-rule (Lasting s0) (is_dead status) _ s
        (λ _. found (find_pid s.process_count 0 pid (λ i. (s.process_table i).pid))) (λ _. h)
    where
      found : (o : Option ℕ) → Lasting s0 (reap_found m t pid o s)
      found none = h
      found (some idx) =
          if-rule (Lasting s0) (is_terminated (s.process_table idx).state) s
            (reap_process m t pid idx s) (λ _. h) (λ _. reap_process-Lasting pid idx s h)

  reap_all-Lasting :
      (fuel : ℕ) (s : System W D) → Lasting s0 s → Always (Lasting s0) (reap_all m t fuel s)
  unfolding reap_all waitpid
  reap_all-Lasting zero s h = tt
  reap_all-Lasting (suc fuel) s h =
      answered (m.waitpid any_child nohang s.world).0 (λ pid status.
        reap_all-Lasting fuel (reap m t pid status s1) (reap-Lasting pid status s1 h))
    where
      s1 : System W D
      s1 = in_world s (m.waitpid any_child nohang s.world).1

      answered :
          (r : WaitResult)
          → ((pid : ℕ) (status : WaitStatus)
              → Always (Lasting s0) (reap_all m t fuel (reap m t pid status s1)))
          → Always (Lasting s0) (elim r [
            | changed pid status ↦ reap_all m t fuel (reap m t pid status s1)
            | _ ↦ some s1
          ])
      answered interrupted again = h
      answered failed again = h
      answered not_yet again = h
      answered (changed pid status) again = again pid status

pub sigchld-Lasting :
    {W D : Type 0} (m : Machine W D) (t : Platform) (fuel : ℕ) (s : System W D)
    → Always (λ (s' : System W D). Lasting s s' × (s'.mask ≡ s.mask)) (sigchld m t fuel s)
unfolding sigchld
sigchld-Lasting {W} {D} m t fuel s =
    restored (reap_all m t fuel (block_alrm s))
      (reap_all-Lasting m t s fuel (block_alrm s) (Lasting-refl s))
  where
    restored :
        (o : Option (System W D))
        → Always (Lasting s) o
        → Always
            (λ (s' : System W D). Lasting s s' × (s'.mask ≡ s.mask))
            (elim o [ none ↦ none | some s1 ↦ some (restore_mask s.mask s1) ])
    restored none h1 = tt
    restored (some s1) h1 = (h1, refl)
