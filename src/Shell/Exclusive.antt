-- ===== src/Shell/Exclusive.antt =====
-- The commands of src/shell.c wake no process but the one that they start.
use minios_lab_edwin_jose.Base.{
  ℕ, zero, suc, ◌≡◌, sym, subst, Bool, true, false, not, ◌&&◌, ◌||◌, Option, none, some, if-rule,
  if◌then◌else◌,
}
use minios_lab_edwin_jose.Base.Int.{ℤ, pos, negsuc, ltb_ℤ}
use minios_lab_edwin_jose.Base.Text.{codes}
use minios_lab_edwin_jose.Machine.{Machine, CString}
use minios_lab_edwin_jose.Pcb
use minios_lab_edwin_jose.Platform.{Platform}
use minios_lab_edwin_jose.ReadyQueue
use minios_lab_edwin_jose.Timer
use minios_lab_edwin_jose.Timer.Laws.{start-setitimer}
use minios_lab_edwin_jose.Monitor.Keeps.{emit_slice_changed-Keeps, set_enabled-Keeps}
use minios_lab_edwin_jose.Scheduler.State.{
  System, in_world, kill, is_running, block_alrm, block_chld,
}
use minios_lab_edwin_jose.Scheduler.View.{WellFormed}
use minios_lab_edwin_jose.Scheduler.Exclusive.{
  Stops, Calm, Calm-refl, Quiet, Quiet-world, Stops-Keeps, IsNew,
}
use minios_lab_edwin_jose.Scheduler.Create.{create_process}
use minios_lab_edwin_jose.Scheduler.Create.Newcomer.{create_process-Quiet}
use minios_lab_edwin_jose.Scheduler.Start.Exclusive.{start-Quiet}
use minios_lab_edwin_jose.CommandLine.{Command, equal, is_blank}
use minios_lab_edwin_jose.Shell.Laws.{create_process-WellFormed}
use minios_lab_edwin_jose.Shell.{
  block_alarm, unblock_alarm, find_live, kill_found, kill_pid, kill_parsed, cmd_kill_proc,
  change_slice, cmd_slice, set_log, cmd_log, cmd_stats, run_created, cmd_run, second_created,
  first_created, launch_pair, pair_paths, cmd_runpair, perform,
}

module _ {W D : Type 0} (m : Machine W D) (awake : W → ℕ → Bool) (fresh : W → ℕ)
    (law : Stops m awake fresh) where
  abbrev Q : System W D → Type 0
  Q = Quiet awake fresh

  kill_found-Quiet : (pid : ℕ) (o : Option ℕ) (s : System W D) → Q s → Q (kill_found m pid o s)
  unfolding kill_found kill
  kill_found-Quiet pid none s q = q
  kill_found-Quiet pid (some i) s q =
      let removed = record s { rq = (ReadyQueue.remove i s.rq).1 } in
      let s1 = (if Pcb.is_running (s.process_table i).state then s else removed) in
      Quiet-world awake fresh s1 _ (law.sigkill_calm pid s1.world)
        (if-rule Q (Pcb.is_running (s.process_table i).state) s removed (λ _. q) (λ _. q))

  cmd_kill_proc-Quiet : (arg : Option CString) (s : System W D) → Q s → Q (cmd_kill_proc m arg s)
  unfolding cmd_kill_proc kill_parsed kill_pid
  cmd_kill_proc-Quiet none s q = q
  cmd_kill_proc-Quiet (some arg) s q =
      if-rule Q (is_blank (some arg)) s (kill_parsed m (m.atoi arg) s) (λ _. q)
        (λ _. parsed (m.atoi arg))
    where
      parsed : (n : ℤ) → Q (kill_parsed m n s)
      parsed (pos zero) = q
      parsed (pos (suc n)) =
          kill_found-Quiet (suc n) (find_live s.process_count 0 (suc n) s.process_table)
            (block_chld (block_alrm s)) q
      parsed (negsuc n) = q

  change_slice-Quiet : (ms : ℤ) (s : System W D) → Q s → Q (change_slice m ms s)
  unfolding change_slice
  change_slice-Quiet ms s q =
      let s1 = record s { timer = Timer.set_slice ms s.timer } in
      let armed = in_world s1 (Timer.start m s1.timer s1.world) in
      let s2 = (if is_running s1 then armed else s1) in
      Quiet-world awake fresh s2 _
        (emit_slice_changed-Keeps m _ (Stops-Keeps m awake fresh law s2.world)
          (Timer.get_slice s.timer) ms s2.monitor s2.world (Calm-refl m awake fresh law s2.world))
        (if-rule Q (is_running s1) armed s1
          (λ _.
            Quiet-world awake fresh s1 _
              (subst (Calm awake fresh s1.world) (sym (start-setitimer m s1.timer s1.world))
                (law.setitimer_calm _ s1.world))
              q)
          (λ _. q))

  cmd_slice-Quiet : (arg : Option CString) (s : System W D) → Q s → Q (cmd_slice m arg s)
  unfolding cmd_slice
  cmd_slice-Quiet none s q = q
  cmd_slice-Quiet (some arg) s q =
      let ms = m.atoi arg in
      if-rule Q (is_blank (some arg)) s _ (λ _. q)
        (λ _.
          if-rule Q (ltb_ℤ ms (pos 50) || ltb_ℤ (pos 5000) ms) s (change_slice m ms s) (λ _. q)
            (λ _. change_slice-Quiet ms s q))

  set_log-Quiet : (val : Bool) (s : System W D) → Q s → Q (set_log m val s)
  unfolding set_log
  set_log-Quiet val s = Quiet-world awake fresh s _ (
      set_enabled-Keeps m _ (Stops-Keeps m awake fresh law s.world) val s.monitor s.world
        (Calm-refl m awake fresh law s.world))

  cmd_log-Quiet : (arg : Option CString) (s : System W D) → Q s → Q (cmd_log m arg s)
  unfolding cmd_log
  cmd_log-Quiet none s q = q
  cmd_log-Quiet (some arg) s q =
      if-rule Q (is_blank (some arg)) s _ (λ _. q)
        (λ _.
          if-rule Q (equal arg (codes "on")) (set_log m true s) _ (λ _. set_log-Quiet true s q)
            (λ _.
              if-rule Q (equal arg (codes "off")) (set_log m false s) s
                (λ _. set_log-Quiet false s q) (λ _. q)))

module _ {W D : Type 0} (m : Machine W D) (t : Platform) (fresh : W → ℕ) where
  -- Each of the two calls of `fork` for a pair gives no pid that has been given out before.
  abbrev NewPair : Option (CString × CString × CString) → System W D → Type 0
  NewPair none s = Unit
  NewPair (some (server, client, sock)) s =
      let s1 = in_world s (m.unlink sock (m.access client (m.access server s.world).1).1) in
      IsNew m fresh s1.world × IsNew m fresh (create_process m t server s1).1.world

  -- The calls of `fork` that the command makes.
  unfoldable pub NewPids : Command → System W D → Type 0
  NewPids (Command.run (some path) arg2) s = IsNew m fresh (m.access path s.world).1
  NewPids (Command.runpair (some name)) s = NewPair (pair_paths name) (block_alarm s)
  NewPids _ s = Unit

module _ {W D : Type 0} (m : Machine W D) (t : Platform) (awake : W → ℕ → Bool) (fresh : W → ℕ)
    (law : Stops m awake fresh) where
  abbrev R : System W D → Type 0
  R s = WellFormed s × Quiet awake fresh s

  created :
      (path : CString) (s : System W D)
      → IsNew m fresh s.world
      → R s
      → R (create_process m t path s).1
  created path s new (h, q) = (
    create_process-WellFormed m t path s h,
    create_process-Quiet m t awake fresh law path s new h q,
  )

  run_created-Quiet :
      (o : Option ℕ) (s : System W D) → R s → Quiet awake fresh (run_created m t o s)
  unfolding run_created
  run_created-Quiet none s r = r.1
  run_created-Quiet (some idx) s r =
      if-rule (Quiet awake fresh) (not (is_running s) && not (ReadyQueue.is_empty s.rq)) _ s
        (λ _. start-Quiet m t (Timer.get_slice s.timer) awake fresh law s r.0 r.1) (λ _. r.1)

  accessed : (path : CString) (s : System W D) → R s → R (in_world s (m.access path s.world).1)
  accessed path s (h, q) = (h, Quiet-world awake fresh s _ (law.access_calm path s.world) q)

  cmd_run-Quiet :
      (path : CString) (arg : Option CString) (s : System W D)
      → IsNew m fresh (m.access path s.world).1
      → R s
      → Quiet awake fresh (cmd_run m t (some path) arg s)
  unfolding cmd_run
  cmd_run-Quiet path arg s new r =
      let (found, w) = m.access path s.world in
      let (idx, s2) = create_process m t path (in_world s w) in
      let r1 = accessed path s r in
      if-rule (Quiet awake fresh) (is_blank (some path)) s _ (λ _. r.1)
        (λ _.
          if-rule (Quiet awake fresh) found (run_created m t idx s2) (in_world s w)
            (λ _. run_created-Quiet idx s2 (created path (in_world s w) new r1)) (λ _. r1.1))

  no_run-Quiet :
      (arg : Option CString) (s : System W D) → R s → Quiet awake fresh (cmd_run m t none arg s)
  unfolding cmd_run
  no_run-Quiet arg s r = r.1

  second_created-Quiet :
      (o : Option ℕ) (s : System W D) → R s → Quiet awake fresh (second_created m t o s)
  unfolding second_created
  second_created-Quiet none s r = r.1
  second_created-Quiet (some idx) s r =
      if-rule (Quiet awake fresh) (not (is_running s)) _ s
        (λ _. start-Quiet m t (Timer.get_slice s.timer) awake fresh law s r.0 r.1) (λ _. r.1)

  first_created-Quiet :
      (path : CString) (o : Option ℕ) (s : System W D)
      → IsNew m fresh s.world
      → R s
      → Quiet awake fresh (first_created m t path o s)
  unfolding first_created
  first_created-Quiet path none s new r = r.1
  first_created-Quiet path (some idx) s new r =
      let (idx2, s1) = create_process m t path s in
      second_created-Quiet idx2 s1 (created path s new r)

  launch_pair-Quiet :
      (server client sock : CString) (s : System W D)
      → NewPair m t fresh (some (server, client, sock)) s
      → R s
      → Quiet awake fresh (launch_pair m t server client sock s)
  unfolding launch_pair
  launch_pair-Quiet server client sock s new r =
      let (server_found, w1) = m.access server s.world in
      let (client_found, w2) = m.access client w1 in
      let s1 = in_world s (m.unlink sock w2) in
      let (idx, s2) = create_process m t server s1 in
      let r1 = accessed server s r in
      let r2 = accessed client (in_world s w1) r1 in
      let r3 = Quiet-world awake fresh (in_world s w2) _ (law.unlink_calm sock w2) r2.1 in
      if-rule (Quiet awake fresh) (not server_found) (in_world s w1) _ (λ _. r1.1)
        (λ _.
          if-rule (Quiet awake fresh) (not client_found) (in_world s w2)
            (first_created m t client idx s2) (λ _. r2.1)
            (λ _. first_created-Quiet client idx s2 new.1 (created server s1 new.0 (r.0, r3))))

  cmd_runpair-Quiet :
      (name : CString) (s : System W D)
      → NewPair m t fresh (pair_paths name) s
      → R s
      → Quiet awake fresh (cmd_runpair m t (some name) s)
  unfolding cmd_runpair
  cmd_runpair-Quiet name s new r =
      if-rule (Quiet awake fresh) (is_blank (some name)) s _ (λ _. r.1)
        (λ _. paths (pair_paths name) new)
    where
      paths :
          (o : Option (CString × CString × CString))
          → NewPair m t fresh o s
          → Quiet awake fresh (elim o [
            | none ↦ s
            | some (server, client, sock) ↦ launch_pair m t server client sock s
          ])
      paths none new = r.1
      paths (some (server, client, sock)) new = launch_pair-Quiet server client sock s new r

  no_runpair-Quiet : (s : System W D) → R s → Quiet awake fresh (cmd_runpair m t none s)
  unfolding cmd_runpair
  no_runpair-Quiet s r = r.1

  pub perform-Quiet :
      (c : Command) (s : System W D)
      → NewPids m t fresh c s
      → WellFormed s
      → Quiet awake fresh s
      → (perform m t c s).0 ≡ true
      → Quiet awake fresh (perform m t c s).1
  unfolding NewPids perform block_alarm unblock_alarm cmd_stats
  perform-Quiet Command.help s new h q e = q
  perform-Quiet (Command.run none arg2) s new h q e = no_run-Quiet arg2 (block_alarm s) (h, q)
  perform-Quiet (Command.run (some path) arg2) s new h q e =
      cmd_run-Quiet path arg2 (block_alarm s) new (h, q)
  perform-Quiet Command.ps s new h q e = q
  perform-Quiet (Command.kill arg) s new h q e = cmd_kill_proc-Quiet m awake fresh law arg s q
  perform-Quiet (Command.slice arg) s new h q e = cmd_slice-Quiet m awake fresh law arg s q
  perform-Quiet (Command.inspect arg) s new h q e =
      if-rule (Quiet awake fresh) (is_blank arg) s (unblock_alarm (block_alarm s)) (λ _. q) (λ _. q)
  perform-Quiet (Command.runpair none) s new h q e = no_runpair-Quiet (block_alarm s) (h, q)
  perform-Quiet (Command.runpair (some name)) s new h q e =
      cmd_runpair-Quiet name (block_alarm s) new (h, q)
  perform-Quiet Command.stats s new h q e = q
  perform-Quiet (Command.log arg) s new h q e = cmd_log-Quiet m awake fresh law arg s q
  perform-Quiet Command.exit s new h q e = cc
  perform-Quiet Command.unknown s new h q e = q
