-- ===== src/Scheduler/Sigchld/Exclusive.antt =====
-- The handler of SIGCHLD leaves all processes but the one that it may resume stopped or ended.
use minios_lab_edwin_jose.Base.{
  ℕ, zero, suc, ◌+◌, ◌≡◌, refl, sym, ap, ◌∙◌, Bool, true, false, Option, none, some, if◌then◌else◌,
  if-rule, Always, inl, inr, eq-cases, eq-false, arith,
}
use minios_lab_edwin_jose.Machine.{
  Machine, Timespec, WaitStatus, WaitResult, is_dead, interrupted, failed, not_yet, changed,
  any_child, nohang,
}
use minios_lab_edwin_jose.Pcb.{terminated, is_terminated}
use minios_lab_edwin_jose.Platform.{Platform}
use minios_lab_edwin_jose.ReadyQueue
use minios_lab_edwin_jose.Scheduler.State.{
  System, in_world, set_state, emit_switch, clock, waitpid, block_alrm, restore_mask,
}
use minios_lab_edwin_jose.Scheduler.View.{WellFormed, Switching}
use minios_lab_edwin_jose.Scheduler.Exclusive.{
  Stops, Quiet, Quiet-world, Quiet-put, emit_terminated-Quiet, emit_switch-Quiet,
}
use minios_lab_edwin_jose.Scheduler.Dispatch.{charge, idle, dispatch}
use minios_lab_edwin_jose.Scheduler.Dispatch.Charge.{charge-WellFormed}
use minios_lab_edwin_jose.Scheduler.Dispatch.Exclusive.{
  dispatch-Quiet, idle-Quiet, charge-Quiet, charge-asleep,
}
use minios_lab_edwin_jose.Scheduler.Sigchld.{
  find_pid, is_current, resumed, replace_running, mark_dead, reap_process, reap_found, reap,
  reap_all, sigchld,
}
use minios_lab_edwin_jose.Scheduler.Sigchld.Laws.{
  is_current-true, mark_dead-Switching, frame-mark_dead, reap-WellFormed,
}

-- What the search finds has the pid.
find_pid-pid : (k i pid : ℕ) (pids : ℕ → ℕ) (x : ℕ) → find_pid k i pid pids ≡ some x → pids x ≡ pid
unfolding find_pid
find_pid-pid zero i pid pids x e = cc
find_pid-pid (suc k) i pid pids x e = elim (eq-cases (pids i) pid) [
  | inl hit ↦ ground (arith, e, hit)
  | inr miss ↦ find_pid-pid k (i + 1) pid pids x (rw (eq-false (pids i) pid miss) at e)
]

module _ {W D : Type 0} (m : Machine W D) (t : Platform) (awake : W → ℕ → Bool) (fresh : W → ℕ)
    (law : Stops m awake fresh) where
  resumed-Quiet :
      (pid : ℕ) (o : Option ℕ) (s : System W D)
      → Quiet awake fresh s
      → Quiet awake fresh (resumed m t pid o s)
  unfolding resumed emit_switch
  resumed-Quiet pid none s q = idle-Quiet m t awake fresh law s q
  resumed-Quiet pid (some i) s q = emit_switch-Quiet m awake fresh law _ _ _ s q

  replace_running-Quiet :
      (pid : ℕ) (s : System W D)
      → Switching s
      → Quiet awake fresh s
      → Quiet awake fresh (replace_running m t pid s)
  unfolding replace_running
  replace_running-Quiet pid s h q =
      let cleared = record s { current_running = none } in
      let looped = dispatch m t (ReadyQueue.size s.rq) cleared in
      if-rule (Quiet awake fresh) (ReadyQueue.is_empty s.rq) (idle m cleared)
        (resumed m t pid looped.0 looped.1) (λ _. idle-Quiet m t awake fresh law cleared q)
        (λ _.
          resumed-Quiet pid looped.0 looped.1
            (dispatch-Quiet m t awake fresh law (ReadyQueue.size s.rq) cleared h q))

  mark_dead-Quiet :
      (pid idx : ℕ) (s : System W D)
      → awake s.world (s.process_table idx).pid ≡ false
      → Quiet awake fresh s
      → Quiet awake fresh (mark_dead m t pid idx s)
  unfolding mark_dead
  mark_dead-Quiet pid idx s still q =
      emit_terminated-Quiet m awake fresh law _ _ _ (set_state idx terminated s)
        (Quiet-put awake fresh idx _ s refl (λ _ _. still) q)

  reap_process-Quiet :
      (pid idx : ℕ) (s : System W D)
      → WellFormed s
      → awake s.world (s.process_table idx).pid ≡ false
      → Quiet awake fresh s
      → Quiet awake fresh (reap_process m t pid idx s)
  unfolding reap_process clock
  reap_process-Quiet pid idx s h still q =
      if-rule (Quiet awake fresh) (is_current idx dead) (replace_running m t pid dead) dead
        (λ e.
          replace_running-Quiet pid dead
            (mark_dead-Switching m t pid idx paid
              (sym (frame-mark_dead m t pid idx paid).0 ∙ is_current-true idx dead e) paid-all.0)
            marked)
        (λ _. marked)
    where
      s1 : System W D
      s1 = (clock m s).1

      now : Timespec
      now = (clock m s).0

      asleep : awake s1.world (s1.process_table idx).pid ≡ false
      asleep = (law.clock_gettime_calm s.world).0 (s.process_table idx).pid still

      quiet : Quiet awake fresh s1
      quiet = Quiet-world awake fresh s s1.world (law.clock_gettime_calm s.world) q

      paid : System W D
      paid = if is_current idx s1 then charge m idx now s1 else s1

      Paid : System W D → Type 0
      Paid x =
          WellFormed x × Quiet awake fresh x × (awake x.world (x.process_table idx).pid ≡ false)

      paid-all : Paid paid
      paid-all =
          if-rule Paid (is_current idx s1) (charge m idx now s1) s1
            (λ _. (
              charge-WellFormed m idx now s1 h,
              charge-Quiet m t awake fresh law idx now s1 quiet,
              charge-asleep m t awake fresh law idx now s1 idx asleep,
            ))
            (λ _. (h, quiet, asleep))

      dead : System W D
      dead = mark_dead m t pid idx paid

      marked : Quiet awake fresh dead
      marked = mark_dead-Quiet pid idx paid paid-all.2 paid-all.1

  reap-Quiet :
      (pid : ℕ) (status : WaitStatus) (s : System W D)
      → WellFormed s
      → (is_dead status ≡ true → awake s.world pid ≡ false)
      → Quiet awake fresh s
      → Quiet awake fresh (reap m t pid status s)
  unfolding reap reap_found
  reap-Quiet pid status s h gone q =
      if-rule (Quiet awake fresh) (is_dead status) _ s
        (λ d. found (find_pid s.process_count 0 pid pids) refl (gone d)) (λ _. q)
    where
      pids : ℕ → ℕ
      pids i = (s.process_table i).pid

      found :
          (o : Option ℕ)
          → find_pid s.process_count 0 pid pids ≡ o
          → awake s.world pid ≡ false
          → Quiet awake fresh (reap_found m t pid o s)
      found none e still = q
      found (some idx) e still =
          if-rule (Quiet awake fresh) (is_terminated (s.process_table idx).state) s
            (reap_process m t pid idx s) (λ _. q)
            (λ _.
              reap_process-Quiet pid idx s h
                (ap (awake s.world) (find_pid-pid s.process_count 0 pid pids idx e) ∙ still) q)

  reap_all-Quiet :
      (fuel : ℕ) (s : System W D)
      → WellFormed s
      → Quiet awake fresh s
      → Always (Quiet awake fresh) (reap_all m t fuel s)
  unfolding reap_all waitpid
  reap_all-Quiet zero s h q = tt
  reap_all-Quiet (suc fuel) s h q =
      answered (m.waitpid any_child nohang s.world).0 refl
        (λ pid status x y. reap_all-Quiet fuel (reap m t pid status s1) x y)
    where
      s1 : System W D
      s1 = in_world s (m.waitpid any_child nohang s.world).1

      quiet : Quiet awake fresh s1
      quiet = Quiet-world awake fresh s s1.world (law.waitpid_calm any_child nohang s.world) q

      answered :
          (r : WaitResult)
          → (m.waitpid any_child nohang s.world).0 ≡ r
          → ((pid : ℕ) (status : WaitStatus)
              → WellFormed (reap m t pid status s1)
              → Quiet awake fresh (reap m t pid status s1)
              → Always (Quiet awake fresh) (reap_all m t fuel (reap m t pid status s1)))
          → Always (Quiet awake fresh) (elim r [
            | changed pid status ↦ reap_all m t fuel (reap m t pid status s1)
            | _ ↦ some s1
          ])
      answered interrupted e again = quiet
      answered failed e again = quiet
      answered not_yet e again = quiet
      answered (changed pid status) e again =
          again pid status (reap-WellFormed m t pid status s1 h)
            (reap-Quiet pid status s1 h (law.waitpid_dead pid status s.world e) quiet)

  pub sigchld-Quiet :
      (fuel : ℕ) (s : System W D)
      → WellFormed s
      → Quiet awake fresh s
      → Always (Quiet awake fresh) (sigchld m t fuel s)
  unfolding sigchld
  sigchld-Quiet fuel s h q =
      restored (reap_all m t fuel (block_alrm s)) (reap_all-Quiet fuel (block_alrm s) h q)
    where
      restored :
          (o : Option (System W D))
          → Always (Quiet awake fresh) o
          → Always
              (Quiet awake fresh)
              (elim o [ none ↦ none | some s1 ↦ some (restore_mask s.mask s1) ])
      restored none h1 = tt
      restored (some s1) h1 = h1
