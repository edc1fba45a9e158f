-- ===== src/Shell/History.antt =====
-- What no command of src/shell.c takes back, and the signal mask after it.
use minios_lab_edwin_jose.Base.{
  ℕ, zero, suc, ◌≤◌, ◌<◌, ◌≡◌, refl, sym, subst, ◌∙◌, true, false, not, ◌&&◌, ◌||◌, Option, none,
  some, if-rule, arith,
}
use minios_lab_edwin_jose.Base.Int.{ℤ, pos, negsuc, ltb_ℤ}
use minios_lab_edwin_jose.Base.Text.{codes}
use minios_lab_edwin_jose.Machine.{Machine, CString}
use minios_lab_edwin_jose.Pcb
use minios_lab_edwin_jose.Platform.{Platform}
use minios_lab_edwin_jose.ReadyQueue
use minios_lab_edwin_jose.Timer
use minios_lab_edwin_jose.Scheduler.State.{
  System, in_world, kill, is_running, block_alrm, block_chld,
}
use minios_lab_edwin_jose.Scheduler.View.{WellFormed}
use minios_lab_edwin_jose.Scheduler.Lasting.{SameProcess, SameProcess-trans, Lasting}
use minios_lab_edwin_jose.Scheduler.Create.{create_process}
use minios_lab_edwin_jose.Scheduler.Create.Laws.{Created, create_process-Created}
use minios_lab_edwin_jose.Scheduler.Start.{start}
use minios_lab_edwin_jose.Scheduler.Start.Lasting.{start-Lasting}
use minios_lab_edwin_jose.CommandLine.{Command, equal, is_blank}
use minios_lab_edwin_jose.Shell.Laws.{create_process-WellFormed}
use minios_lab_edwin_jose.Shell.{
  block_alarm, unblock_alarm, find_live, kill_found, kill_pid, kill_parsed, cmd_kill_proc,
  change_slice, cmd_slice, set_log, cmd_log, cmd_stats, run_created, cmd_run, second_created,
  first_created, launch_pair, pair_paths, cmd_runpair, perform,
}

-- The table may have got longer; its old entries are the same processes, and those that were TERMINATED
-- still are.
abbrev pub Grown : {W D : Type 0} → System W D → System W D → Type 0
Grown s0 s =
    (s0.process_count ≤ s.process_count)
    × ((j : ℕ) → j < s0.process_count → SameProcess (s0.process_table j) (s.process_table j))

-- With the same signal mask.
abbrev pub Onward : {W D : Type 0} → System W D → System W D → Type 0
Onward s0 s = Grown s0 s × (s.mask ≡ s0.mask)

module _ {W D : Type 0} where
  pub Grown-refl : (s : System W D) → Grown s s
  Grown-refl s = (omega arith, λ j lt. (refl, refl, λ e. e))

  pub Grown-trans : (s0 s1 s2 : System W D) → Grown s0 s1 → Grown s1 s2 → Grown s0 s2
  Grown-trans s0 s1 s2 (n, f) (k, g) = (
    omega (arith, n, k),
    λ j lt.
        SameProcess-trans (s0.process_table j) (s1.process_table j) (s2.process_table j) (f j lt)
          (g j (omega (arith, n, lt))),
  )

  pub Lasting-Grown : (s0 s : System W D) → Lasting s0 s → Grown s0 s
  Lasting-Grown s0 s (n, f) = (omega (arith, n), λ j _. f j)

  Onward-trans : (s0 s1 s2 : System W D) → Onward s0 s1 → Onward s1 s2 → Onward s0 s2
  Onward-trans s0 s1 s2 (g, e) (k, f) = (Grown-trans s0 s1 s2 g k, f ∙ e)

  unchanged :
      (s0 s : System W D) (j : ℕ)
      → s.process_table j ≡ s0.process_table j
      → SameProcess (s0.process_table j) (s.process_table j)
  unchanged s0 s j e = subst (SameProcess (s0.process_table j)) (sym e) (refl, refl, λ x. x)

  pub Created-Onward :
      (s0 : System W D) (r : Option ℕ) (s : System W D) → Created s0 r s → Onward s0 s
  Created-Onward s0 none s (v, n, q, f, mask) =
      ((omega (arith, n), λ j lt. unchanged s0 s j (f j (λ e. omega (arith, e, lt)))), mask)
  Created-Onward s0 (some idx) s (v, i, n, q, st, f, mask) =
      ((omega (arith, n), λ j lt. unchanged s0 s j (f j (λ e. omega (arith, e, i, lt)))), mask)

module _ {W D : Type 0} (m : Machine W D) where
  kill_found-Onward : (pid : ℕ) (o : Option ℕ) (s : System W D) → Onward s (kill_found m pid o s)
  unfolding kill_found kill
  kill_found-Onward pid none s = (Grown-refl s, refl)
  kill_found-Onward pid (some i) s =
      if-rule (Onward s) (Pcb.is_running (s.process_table i).state) s
        (record s { rq = (ReadyQueue.remove i s.rq).1 }) (λ _. (Grown-refl s, refl))
        (λ _. (Grown-refl s, refl))

  cmd_kill_proc-Onward : (arg : Option CString) (s : System W D) → Onward s (cmd_kill_proc m arg s)
  unfolding cmd_kill_proc kill_parsed kill_pid
  cmd_kill_proc-Onward none s = (Grown-refl s, refl)
  cmd_kill_proc-Onward (some arg) s =
      if-rule (Onward s) (is_blank (some arg)) s (kill_parsed m (m.atoi arg) s)
        (λ _. (Grown-refl s, refl)) (λ _. parsed (m.atoi arg))
    where
      parsed : (n : ℤ) → Onward s (kill_parsed m n s)
      parsed (pos zero) = (Grown-refl s, refl)
      parsed (pos (suc n)) = (
        (kill_found-Onward (suc n) (find_live s.process_count 0 (suc n) s.process_table)
            (block_chld (block_alrm s))).0,
        refl,
      )
      parsed (negsuc n) = (Grown-refl s, refl)

  cmd_slice-Onward : (arg : Option CString) (s : System W D) → Onward s (cmd_slice m arg s)
  unfolding cmd_slice change_slice
  cmd_slice-Onward none s = (Grown-refl s, refl)
  cmd_slice-Onward (some arg) s =
      let ms = m.atoi arg in
      let s1 = record s { timer = Timer.set_slice ms s.timer } in
      if-rule (Onward s) (is_blank (some arg)) s _ (λ _. (Grown-refl s, refl))
        (λ _.
          if-rule (Onward s) (ltb_ℤ ms (pos 50) || ltb_ℤ (pos 5000) ms) s (change_slice m ms s)
            (λ _. (Grown-refl s, refl))
            (λ _.
              if-rule (Onward s) (is_running s1) (in_world s1 (Timer.start m s1.timer s1.world)) s1
                (λ _. (Grown-refl s, refl)) (λ _. (Grown-refl s, refl))))

  cmd_log-Onward : (arg : Option CString) (s : System W D) → Onward s (cmd_log m arg s)
  unfolding cmd_log set_log
  cmd_log-Onward none s = (Grown-refl s, refl)
  cmd_log-Onward (some arg) s =
      if-rule (Onward s) (is_blank (some arg)) s _ (λ _. (Grown-refl s, refl))
        (λ _.
          if-rule (Onward s) (equal arg (codes "on")) (set_log m true s) _
            (λ _. (Grown-refl s, refl))
            (λ _.
              if-rule (Onward s) (equal arg (codes "off")) (set_log m false s) s
                (λ _. (Grown-refl s, refl)) (λ _. (Grown-refl s, refl))))

module _ {W D : Type 0} (m : Machine W D) (t : Platform) where
  create_process-Onward :
      (path : CString) (s : System W D) → WellFormed s → Onward s (create_process m t path s).1
  create_process-Onward path s h =
      let (r, s') = create_process m t path s in
      Created-Onward s r s' (create_process-Created m t path s h)

  start-Onward : (slice_ms : ℤ) (s : System W D) → WellFormed s → Onward s (start m t slice_ms s)
  start-Onward slice_ms s h =
      let (kept, mask) = start-Lasting m t slice_ms s h in
      (Lasting-Grown s (start m t slice_ms s) kept, mask)

  run_created-Onward :
      (o : Option ℕ) (s : System W D) → WellFormed s → Onward s (run_created m t o s)
  unfolding run_created
  run_created-Onward none s h = (Grown-refl s, refl)
  run_created-Onward (some idx) s h =
      if-rule (Onward s) (not (is_running s) && not (ReadyQueue.is_empty s.rq)) _ s
        (λ _. start-Onward (Timer.get_slice s.timer) s h) (λ _. (Grown-refl s, refl))

  cmd_run-Onward :
      (path arg : Option CString) (s : System W D)
      → WellFormed s
      → Onward s (cmd_run m t path arg s)
  unfolding cmd_run
  cmd_run-Onward none arg s h = (Grown-refl s, refl)
  cmd_run-Onward (some path) arg s h =
      let (found, w) = m.access path s.world in
      let (idx, s2) = create_process m t path (in_world s w) in
      if-rule (Onward s) (is_blank (some path)) s _ (λ _. (Grown-refl s, refl))
        (λ _.
          if-rule (Onward s) found (run_created m t idx s2) (in_world s w)
            (λ _.
              Onward-trans s s2 (run_created m t idx s2)
                (create_process-Onward path (in_world s w) h)
                (run_created-Onward idx s2 (create_process-WellFormed m t path (in_world s w) h)))
            (λ _. (Grown-refl s, refl)))

  second_created-Onward :
      (o : Option ℕ) (s : System W D) → WellFormed s → Onward s (second_created m t o s)
  unfolding second_created
  second_created-Onward none s h = (Grown-refl s, refl)
  second_created-Onward (some idx) s h =
      if-rule (Onward s) (not (is_running s)) _ s (λ _. start-Onward (Timer.get_slice s.timer) s h)
        (λ _. (Grown-refl s, refl))

  first_created-Onward :
      (path : CString) (o : Option ℕ) (s : System W D)
      → WellFormed s
      → Onward s (first_created m t path o s)
  unfolding first_created
  first_created-Onward path none s h = (Grown-refl s, refl)
  first_created-Onward path (some idx) s h =
      let (idx2, s1) = create_process m t path s in
      Onward-trans s s1 (second_created m t idx2 s1) (create_process-Onward path s h)
        (second_created-Onward idx2 s1 (create_process-WellFormed m t path s h))

  launch_pair-Onward :
      (server client sock : CString) (s : System W D)
      → WellFormed s
      → Onward s (launch_pair m t server client sock s)
  unfolding launch_pair
  launch_pair-Onward server client sock s h =
      let (server_found, w1) = m.access server s.world in
      let (client_found, w2) = m.access client w1 in
      let s1 = in_world s (m.unlink sock w2) in
      let (idx, s2) = create_process m t server s1 in
      if-rule (Onward s) (not server_found) (in_world s w1) _ (λ _. (Grown-refl s, refl))
        (λ _.
          if-rule (Onward s) (not client_found) (in_world s w2) (first_created m t client idx s2)
            (λ _. (Grown-refl s, refl))
            (λ _.
              Onward-trans s s2 (first_created m t client idx s2)
                (create_process-Onward server s1 h)
                (first_created-Onward client idx s2 (create_process-WellFormed m t server s1 h))))

  cmd_runpair-Onward :
      (name : Option CString) (s : System W D) → WellFormed s → Onward s (cmd_runpair m t name s)
  unfolding cmd_runpair
  cmd_runpair-Onward none s h = (Grown-refl s, refl)
  cmd_runpair-Onward (some name) s h =
      if-rule (Onward s) (is_blank (some name)) s _ (λ _. (Grown-refl s, refl))
        (λ _. paths (pair_paths name))
    where
      paths :
          (o : Option (CString × CString × CString))
          → Onward s (elim o [
            | none ↦ s
            | some (server, client, sock) ↦ launch_pair m t server client sock s
          ])
      paths none = (Grown-refl s, refl)
      paths (some (server, client, sock)) = launch_pair-Onward server client sock s h

  -- The command ran with SIGALRM blocked, and then it is not.
  unblocked :
      (s s' : System W D)
      → s.mask.alrm_blocked ≡ false
      → Onward (block_alarm s) s'
      → Onward s (unblock_alarm s')
  unfolding block_alarm unblock_alarm
  unblocked s s' a (g, e) = (g, ground (arith, a, e))

  -- After a command that does not end the shell the table has the old processes, with the TERMINATED ones
  -- TERMINATED, and the signal mask is as before, if SIGALRM was not blocked.
  pub perform-Grown :
      (c : Command) (s : System W D)
      → WellFormed s
      → s.mask.alrm_blocked ≡ false
      → (perform m t c s).0 ≡ true
      → Grown s (perform m t c s).1 × ((perform m t c s).1.mask ≡ s.mask)
  unfolding perform block_alarm cmd_stats
  perform-Grown Command.help s h a e = (Grown-refl s, refl)
  perform-Grown (Command.run arg arg2) s h a e =
      unblocked s (cmd_run m t arg arg2 (block_alarm s)) a
        (cmd_run-Onward arg arg2 (block_alarm s) h)
  perform-Grown Command.ps s h a e = unblocked s (block_alarm s) a (Grown-refl s, refl)
  perform-Grown (Command.kill arg) s h a e = cmd_kill_proc-Onward m arg s
  perform-Grown (Command.slice arg) s h a e = cmd_slice-Onward m arg s
  perform-Grown (Command.inspect arg) s h a e =
      if-rule (Onward s) (is_blank arg) s (unblock_alarm (block_alarm s))
        (λ _. (Grown-refl s, refl)) (λ _. unblocked s (block_alarm s) a (Grown-refl s, refl))
  perform-Grown (Command.runpair arg) s h a e =
      unblocked s (cmd_runpair m t arg (block_alarm s)) a (cmd_runpair-Onward arg (block_alarm s) h)
  perform-Grown Command.stats s h a e = unblocked s (block_alarm s) a (Grown-refl s, refl)
  perform-Grown (Command.log arg) s h a e = cmd_log-Onward m arg s
  perform-Grown Command.exit s h a e = cc
  perform-Grown Command.unknown s h a e = (Grown-refl s, refl)
