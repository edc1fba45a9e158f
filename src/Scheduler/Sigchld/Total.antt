-- ===== src/Scheduler/Sigchld/Total.antt =====
-- The handler of SIGCHLD returns, and does not return while a child that has ended is left.
use minios_lab_edwin_jose.Base.{
  ℕ, zero, suc, ◌≤◌, ◌<◌, ◌≡◌, refl, ◌∙◌, Option, none, some, if◌then◌else◌, if-rule, arith, ◌⊎◌,
  inl, inr,
}
use minios_lab_edwin_jose.Machine.{
  Machine, CountsChildren, WaitStatus, WaitResult, interrupted, failed, not_yet, changed, any_child,
  nohang, is_dead,
}
use minios_lab_edwin_jose.Platform.{Platform}
use minios_lab_edwin_jose.ReadyQueue
use minios_lab_edwin_jose.Pcb.{is_terminated}
use minios_lab_edwin_jose.Monitor.Laws.{emit_terminated-le, emit_switch-le}
use minios_lab_edwin_jose.Scheduler.State.{
  System, in_world, clock, waitpid, block_alrm, restore_mask, emit_terminated, emit_switch,
}
use minios_lab_edwin_jose.Scheduler.Dispatch.{charge, idle, dispatch}
use minios_lab_edwin_jose.Scheduler.Dispatch.Children.{charge-le, idle-le, dispatch-le}
use minios_lab_edwin_jose.Scheduler.Sigchld.{
  find_pid, is_current, resumed, replace_running, mark_dead, reap_process, reap_found, reap,
  reap_all, sigchld,
}

-- The answer does not say that a child has changed its state.
abbrev pub IsDrained : WaitResult → Type 0
IsDrained (changed pid status) = ⊥
IsDrained _ = Unit

WaitResult-cases :
    (r : WaitResult) → IsDrained r ⊎ ((pid : ℕ) × (status : WaitStatus) × (r ≡ changed pid status))
WaitResult-cases interrupted = inl tt
WaitResult-cases failed = inl tt
WaitResult-cases not_yet = inl tt
WaitResult-cases (changed pid status) = inr (pid, status, refl)

module _ {W D : Type 0} (m : Machine W D) (t : Platform) (children : W → ℕ)
    (law : CountsChildren m children) where
  abbrev AtMost : System W D → System W D → Type 0
  AtMost s s' = children s'.world ≤ children s.world

  resumed-le : (pid : ℕ) (next : Option ℕ) (s : System W D) → AtMost s (resumed m t pid next s)
  unfolding resumed emit_switch
  resumed-le pid none s = idle-le m t children law s
  resumed-le pid (some i) s = emit_switch-le m children law _ _ _ s.monitor s.world

  replace_running-le : (pid : ℕ) (s : System W D) → AtMost s (replace_running m t pid s)
  unfolding replace_running
  replace_running-le pid s =
      let cleared = record s { current_running = none } in
      let looped = dispatch m t (ReadyQueue.size s.rq) cleared in
      if-rule (AtMost s) (ReadyQueue.is_empty s.rq) (idle m cleared)
        (resumed m t pid looped.0 looped.1) (λ _. idle-le m t children law cleared)
        (λ _. omega (
          arith,
          resumed-le pid looped.0 looped.1,
          dispatch-le m t children law (ReadyQueue.size s.rq) cleared,
        ))

  mark_dead-le : (pid idx : ℕ) (s : System W D) → AtMost s (mark_dead m t pid idx s)
  unfolding mark_dead emit_terminated
  mark_dead-le pid idx s = emit_terminated-le m children law _ _ _ s.monitor s.world

  reap_process-le : (pid idx : ℕ) (s : System W D) → AtMost s (reap_process m t pid idx s)
  unfolding reap_process clock
  reap_process-le pid idx s =
      let s1 = (clock m s).1 in
      let paid = (if is_current idx s1 then charge m idx (clock m s).0 s1 else s1) in
      let dead = mark_dead m t pid idx paid in
      let cheap : AtMost s1 paid =
        if-rule (AtMost s1) (is_current idx s1) (charge m idx (clock m s).0 s1) s1
          (λ _. charge-le m t children law idx (clock m s).0 s1) (λ _. omega arith) in
      let settled : AtMost s dead =
        omega (arith, mark_dead-le pid idx paid, cheap, law.clock_gettime_le s.world) in
      if-rule (AtMost s) (is_current idx dead) (replace_running m t pid dead) dead
        (λ _. omega (arith, replace_running-le pid dead, settled)) (λ _. settled)

  reap_found-le : (pid : ℕ) (o : Option ℕ) (s : System W D) → AtMost s (reap_found m t pid o s)
  unfolding reap_found
  reap_found-le pid none s = omega arith
  reap_found-le pid (some idx) s =
      if-rule (AtMost s) (is_terminated (s.process_table idx).state) s (reap_process m t pid idx s)
        (λ _. omega arith) (λ _. reap_process-le pid idx s)

  reap-le : (pid : ℕ) (status : WaitStatus) (s : System W D) → AtMost s (reap m t pid status s)
  unfolding reap
  reap-le pid status s =
      if-rule (AtMost s) (is_dead status) _ s
        (λ _. reap_found-le pid (find_pid s.process_count 0 pid (λ i. (s.process_table i).pid)) s)
        (λ _. omega arith)

  -- The loop, from the answer of its `waitpid` on.
  reap_all-changed :
      (fuel pid : ℕ) (status : WaitStatus) (s : System W D)
      → (m.waitpid any_child nohang s.world).0 ≡ changed pid status
      → reap_all m t (suc fuel) s
        ≡ reap_all m t fuel
            (reap m t pid status (in_world s (m.waitpid any_child nohang s.world).1))
  unfolding reap_all waitpid
  reap_all-changed fuel pid status s e = ground (arith, e)

  reap_all-drained :
      (fuel : ℕ) (s : System W D) (r : WaitResult)
      → (m.waitpid any_child nohang s.world).0 ≡ r
      → IsDrained r
      → reap_all m t (suc fuel) s ≡ some (in_world s (m.waitpid any_child nohang s.world).1)
  unfolding reap_all waitpid
  reap_all-drained fuel s interrupted e d = ground (arith, e)
  reap_all-drained fuel s failed e d = ground (arith, e)
  reap_all-drained fuel s not_yet e d = ground (arith, e)
  reap_all-drained fuel s (changed pid status) e d = absurd d

  reap_all-total :
      (fuel : ℕ) (s : System W D)
      → children s.world < fuel
      → (s' : System W D) × (w : W) × (reap_all m t fuel s ≡ some s')
        × IsDrained (m.waitpid any_child nohang w).0
        × (s'.world ≡ (m.waitpid any_child nohang w).1)
  reap_all-total zero s lt = absurd (omega arith)
  reap_all-total (suc fuel) s lt = elim (WaitResult-cases (m.waitpid any_child nohang s.world).0) [
    | inl drained ↦ (
      in_world s (m.waitpid any_child nohang s.world).1,
      s.world,
      reap_all-drained fuel s _ refl drained,
      drained,
      refl,
    )
    | inr (pid, status, e) ↦
        let s1 = in_world s (m.waitpid any_child nohang s.world).1 in
        let (s', w, done, drained, last) =
          reap_all-total fuel (reap m t pid status s1)
            (omega (arith, reap-le pid status s1, law.reaped s.world pid status e, lt)) in
        (s', w, reap_all-changed fuel pid status s e ∙ done, drained, last)
  ]

  -- With more fuel than there are children the handler returns; the last thing that it did to the
  -- outside world was a `waitpid` that reported no child; and it gives back the signal mask.
  pub sigchld-total :
      (fuel : ℕ) (s : System W D)
      → children s.world < fuel
      → (s' : System W D) × (w : W) × (sigchld m t fuel s ≡ some s')
        × IsDrained (m.waitpid any_child nohang w).0
        × (s'.world ≡ (m.waitpid any_child nohang w).1)
        × (s'.mask ≡ s.mask)
  unfolding sigchld
  sigchld-total fuel s lt =
      let (s1, w, done, drained, last) = reap_all-total fuel (block_alrm s) lt in
      (restore_mask s.mask s1, w, ground (arith, done), drained, last, refl)
