-- ===== src/Shell/Laws.antt =====
-- The invariant of the scheduler through the commands of src/shell.c.
use minios_lab_edwin_jose.Base.{
  ℕ, zero, suc, ◌≡◌, ◌≢◌, refl, Bool, true, false, not, ◌&&◌, ◌||◌, Option, none, some, List, [],
  ◌∷◌, if-rule, All, All-mono, All-without, Distinct-without, without, arith,
}
use minios_lab_edwin_jose.Base.Int.{ℤ, pos, negsuc, ltb_ℤ}
use minios_lab_edwin_jose.Base.Text.{codes}
use minios_lab_edwin_jose.Machine.{Machine, CString}
use minios_lab_edwin_jose.Pcb
use minios_lab_edwin_jose.Pcb.{ProcState}
use minios_lab_edwin_jose.Platform.{Platform}
use minios_lab_edwin_jose.RoundRobin.{IsWaiting, IsSane}
use minios_lab_edwin_jose.ReadyQueue
use minios_lab_edwin_jose.ReadyQueue.Contents.{contents, contents-remove}
use minios_lab_edwin_jose.Timer
use minios_lab_edwin_jose.Scheduler.State.{System, in_world, kill, is_running}
use minios_lab_edwin_jose.Scheduler.View.{WellFormed}
use minios_lab_edwin_jose.Scheduler.Create.{create_process}
use minios_lab_edwin_jose.Scheduler.Create.Laws.{Created, create_process-Created}
use minios_lab_edwin_jose.Scheduler.Start.{start}
use minios_lab_edwin_jose.Scheduler.Start.Laws.{start-Launched, start-empty}
use minios_lab_edwin_jose.CommandLine.{Command, parse, equal, is_blank}
use minios_lab_edwin_jose.Shell.{
  block_alarm, unblock_alarm, find_live, kill_found, kill_pid, kill_parsed, cmd_kill_proc,
  change_slice, cmd_slice, set_log, cmd_log, cmd_stats, run_created, cmd_run, second_created,
  first_created, launch_pair, pair_paths, cmd_runpair, perform, shell_run,
}

-- Leaving the queue keeps the view sane.
leave_queue :
    {st : ℕ → ProcState} {n : ℕ} {q : List ℕ} {cur : Option ℕ} {act : Bool} (i : ℕ)
    → IsSane st n q cur act
    → IsSane st n (without i q) cur act
leave_queue {st} {n} {q} i h = record {
  queue = record {
    fits = h.queue.fits;
    waiting =
        All-mono (λ j. (j ≢ i) × IsWaiting st n j) (IsWaiting st n) (without i q) (λ j p. p.1)
          (All-without (IsWaiting st n) i q h.queue.waiting);
    distinct = Distinct-without i q h.queue.distinct;
  };
  current = h.current;
  only = h.only;
  active = h.active;
}

module _ {W D : Type 0} (m : Machine W D) where
  kill_found-WellFormed :
      (pid : ℕ) (o : Option ℕ) (s : System W D) → WellFormed s → WellFormed (kill_found m pid o s)
  unfolding kill_found kill
  kill_found-WellFormed pid none s h = h
  kill_found-WellFormed pid (some i) s h =
      let (found, left, ring) = contents-remove i h.0 in
      if-rule WellFormed (Pcb.is_running (s.process_table i).state) s
        (record s { rq = (ReadyQueue.remove i s.rq).1 }) (λ _. h)
        (λ _. (ring, rw left (leave_queue i h.1)))

  cmd_kill_proc-WellFormed :
      (arg : Option CString) (s : System W D) → WellFormed s → WellFormed (cmd_kill_proc m arg s)
  unfolding cmd_kill_proc kill_parsed kill_pid
  cmd_kill_proc-WellFormed none s h = h
  cmd_kill_proc-WellFormed (some arg) s h =
      if-rule WellFormed (is_blank (some arg)) s (kill_parsed m (m.atoi arg) s) (λ _. h)
        (λ _. parsed (m.atoi arg))
    where
      parsed : (n : ℤ) → WellFormed (kill_parsed m n s)
      parsed (pos zero) = h
      parsed (pos (suc n)) =
          kill_found-WellFormed (suc n) (find_live s.process_count 0 (suc n) s.process_table) _ h
      parsed (negsuc n) = h

  change_slice-WellFormed :
      (ms : ℤ) (s : System W D) → WellFormed s → WellFormed (change_slice m ms s)
  unfolding change_slice
  change_slice-WellFormed ms s h =
      let s1 = record s { timer = Timer.set_slice ms s.timer } in
      if-rule WellFormed (is_running s1) (in_world s1 (Timer.start m s1.timer s1.world)) s1 (λ _. h)
        (λ _. h)

  cmd_slice-WellFormed :
      (arg : Option CString) (s : System W D) → WellFormed s → WellFormed (cmd_slice m arg s)
  unfolding cmd_slice
  cmd_slice-WellFormed none s h = h
  cmd_slice-WellFormed (some arg) s h =
      let ms = m.atoi arg in
      if-rule WellFormed (is_blank (some arg)) s _ (λ _. h)
        (λ _.
          if-rule WellFormed (ltb_ℤ ms (pos 50) || ltb_ℤ (pos 5000) ms) s (change_slice m ms s)
            (λ _. h) (λ _. change_slice-WellFormed ms s h))

  cmd_log-WellFormed :
      (arg : Option CString) (s : System W D) → WellFormed s → WellFormed (cmd_log m arg s)
  unfolding cmd_log set_log
  cmd_log-WellFormed none s h = h
  cmd_log-WellFormed (some arg) s h =
      if-rule WellFormed (is_blank (some arg)) s _ (λ _. h)
        (λ _.
          if-rule WellFormed (equal arg (codes "on")) (set_log m true s) _ (λ _. h)
            (λ _.
              if-rule WellFormed (equal arg (codes "off")) (set_log m false s) s (λ _. h) (λ _. h)))

module _ {W D : Type 0} (m : Machine W D) (t : Platform) where
  start-WellFormed :
      (slice_ms : ℤ) (s : System W D)
      → WellFormed s
      → s.scheduler_active ≡ false
      → WellFormed (start m t slice_ms s)
  start-WellFormed slice_ms s h a = by_queue (contents s.rq) refl
    where
      by_queue : (q : List ℕ) → contents s.rq ≡ q → WellFormed (start m t slice_ms s)
      by_queue [] e = rw (start-empty m t slice_ms s e) h
      by_queue (i ∷ q) e = (start-Launched m t slice_ms i q s h a e).0

  Created-WellFormed :
      (s : System W D) (r : Option ℕ) (s' : System W D) → Created s r s' → WellFormed s'
  Created-WellFormed s none s' c = c.0
  Created-WellFormed s (some idx) s' c = c.0

  pub create_process-WellFormed :
      (path : CString) (s : System W D) → WellFormed s → WellFormed (create_process m t path s).1
  create_process-WellFormed path s h =
      let (r, s') = create_process m t path s in
      Created-WellFormed s r s' (create_process-Created m t path s h)

  run_created-WellFormed :
      (o : Option ℕ) (s : System W D) → WellFormed s → WellFormed (run_created m t o s)
  unfolding run_created is_running
  run_created-WellFormed none s h = h
  run_created-WellFormed (some idx) s h =
      if-rule WellFormed (not (is_running s) && not (ReadyQueue.is_empty s.rq)) _ s
        (λ e. start-WellFormed (Timer.get_slice s.timer) s h (idle_before e)) (λ _. h)
    where
      idle_before :
          (not (is_running s) && not (ReadyQueue.is_empty s.rq)) ≡ true → s.scheduler_active ≡ false
      idle_before e = ground arith

  cmd_run-WellFormed :
      (path arg : Option CString) (s : System W D)
      → WellFormed s
      → WellFormed (cmd_run m t path arg s)
  unfolding cmd_run
  cmd_run-WellFormed none arg s h = h
  cmd_run-WellFormed (some path) arg s h =
      let (found, w) = m.access path s.world in
      let (idx, s2) = create_process m t path (in_world s w) in
      if-rule WellFormed (is_blank (some path)) s _ (λ _. h)
        (λ _.
          if-rule WellFormed found (run_created m t idx s2) (in_world s w)
            (λ _. run_created-WellFormed idx s2 (create_process-WellFormed path (in_world s w) h))
            (λ _. h))

  second_created-WellFormed :
      (o : Option ℕ) (s : System W D) → WellFormed s → WellFormed (second_created m t o s)
  unfolding second_created is_running
  second_created-WellFormed none s h = h
  second_created-WellFormed (some idx) s h =
      if-rule WellFormed (not (is_running s)) _ s
        (λ e. start-WellFormed (Timer.get_slice s.timer) s h (idle_before e)) (λ _. h)
    where
      idle_before : not (is_running s) ≡ true → s.scheduler_active ≡ false
      idle_before e = ground arith

  first_created-WellFormed :
      (path : CString) (o : Option ℕ) (s : System W D)
      → WellFormed s
      → WellFormed (first_created m t path o s)
  unfolding first_created
  first_created-WellFormed path none s h = h
  first_created-WellFormed path (some idx) s h =
      let (idx2, s1) = create_process m t path s in
      second_created-WellFormed idx2 s1 (create_process-WellFormed path s h)

  launch_pair-WellFormed :
      (server client sock : CString) (s : System W D)
      → WellFormed s
      → WellFormed (launch_pair m t server client sock s)
  unfolding launch_pair
  launch_pair-WellFormed server client sock s h =
      let (server_found, w1) = m.access server s.world in
      let (client_found, w2) = m.access client w1 in
      let s1 = in_world s (m.unlink sock w2) in
      let (idx, s2) = create_process m t server s1 in
      if-rule WellFormed (not server_found) (in_world s w1) _ (λ _. h)
        (λ _.
          if-rule WellFormed (not client_found) (in_world s w2) (first_created m t client idx s2)
            (λ _. h)
            (λ _. first_created-WellFormed client idx s2 (create_process-WellFormed server s1 h)))

  cmd_runpair-WellFormed :
      (name : Option CString) (s : System W D) → WellFormed s → WellFormed (cmd_runpair m t name s)
  unfolding cmd_runpair
  cmd_runpair-WellFormed none s h = h
  cmd_runpair-WellFormed (some name) s h =
      if-rule WellFormed (is_blank (some name)) s _ (λ _. h) (λ _. paths (pair_paths name))
    where
      paths :
          (o : Option (CString × CString × CString))
          → WellFormed (elim o [
            | none ↦ s
            | some (server, client, sock) ↦ launch_pair m t server client sock s
          ])
      paths none = h
      paths (some (server, client, sock)) = launch_pair-WellFormed server client sock s h

  -- Every command after which the shell goes on leaves a well-formed system, whatever its words are and
  -- whatever the kernel answers.
  pub perform-WellFormed :
      (c : Command) (s : System W D)
      → WellFormed s
      → (perform m t c s).0 ≡ true
      → WellFormed (perform m t c s).1
  unfolding perform block_alarm unblock_alarm cmd_stats
  perform-WellFormed Command.help s h e = h
  perform-WellFormed (Command.run arg arg2) s h e = cmd_run-WellFormed arg arg2 (block_alarm s) h
  perform-WellFormed Command.ps s h e = h
  perform-WellFormed (Command.kill arg) s h e = cmd_kill_proc-WellFormed m arg s h
  perform-WellFormed (Command.slice arg) s h e = cmd_slice-WellFormed m arg s h
  perform-WellFormed (Command.inspect arg) s h e =
      if-rule WellFormed (is_blank arg) s (unblock_alarm (block_alarm s)) (λ _. h) (λ _. h)
  perform-WellFormed (Command.runpair arg) s h e = cmd_runpair-WellFormed arg (block_alarm s) h
  perform-WellFormed Command.stats s h e = h
  perform-WellFormed (Command.log arg) s h e = cmd_log-WellFormed m arg s h
  perform-WellFormed Command.exit s h e = cc
  perform-WellFormed Command.unknown s h e = h

  pub goes_on : (c : Command) (s : System W D) → c ≢ Command.exit → (perform m t c s).0 ≡ true
  unfolding perform
  goes_on Command.help s ne = refl
  goes_on (Command.run arg arg2) s ne = refl
  goes_on Command.ps s ne = refl
  goes_on (Command.kill arg) s ne = refl
  goes_on (Command.slice arg) s ne = refl
  goes_on (Command.inspect arg) s ne = refl
  goes_on (Command.runpair arg) s ne = refl
  goes_on Command.stats s ne = refl
  goes_on (Command.log arg) s ne = refl
  goes_on Command.exit s ne = absurd (ne refl)
  goes_on Command.unknown s ne = refl

  -- A session of lines none of which is `exit` leaves a well-formed system if it finds one.
  pub shell_run-WellFormed :
      (lines : List (CString × Option CString × Option CString)) (s : System W D)
      → All
          (λ (l : CString × Option CString × Option CString). parse l.0 l.1 l.2 ≢ Command.exit)
          lines
      → WellFormed s
      → WellFormed (shell_run m t lines s)
  unfolding shell_run
  shell_run-WellFormed [] s ok h = h
  shell_run-WellFormed ((cmd, arg, arg2) ∷ lines) s (ok, oks) h =
      let c = parse cmd arg arg2 in
      let s1 = (perform m t c s).1 in
      let more = goes_on c s ok in
      rw more (shell_run-WellFormed lines s1 oks (perform-WellFormed c s h more))
