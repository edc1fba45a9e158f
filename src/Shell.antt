-- ===== src/Shell.antt =====
-- The commands of src/shell.c and its main loop, on the state of the scheduler. What a command writes
-- to the terminal is in Console/Commands; `fgets` and `strtok` are the library's, so a command line is
-- its first three words.
pub mod Laws
pub mod Kill
pub mod Slice
pub mod Totals
pub mod History
pub mod Exclusive
pub mod Ending
use minios_lab_edwin_jose.Base.{
  ℕ, zero, suc, ◌+◌, Bool, true, false, not, ◌&&◌, ◌||◌, Option, none, some, List, [], ◌∷◌, ◌==◌,
  if◌then◌else◌,
}
use minios_lab_edwin_jose.Base.Int.{ℤ, pos, negsuc, ltb_ℤ}
use minios_lab_edwin_jose.Base.Text.{codes}
use minios_lab_edwin_jose.Machine.{Machine, CString, sigkill}
use minios_lab_edwin_jose.Pcb.{Pcb, is_terminated, is_running}
use minios_lab_edwin_jose.Platform.{Platform}
use minios_lab_edwin_jose.ReadyQueue
use minios_lab_edwin_jose.Timer
use minios_lab_edwin_jose.Monitor
use minios_lab_edwin_jose.Scheduler.State
use minios_lab_edwin_jose.Scheduler.State.{
  System, in_world, block_chld, block_alrm, restore_mask, kill,
}
use minios_lab_edwin_jose.Scheduler.Create.{create_process}
use minios_lab_edwin_jose.Scheduler.Start
use minios_lab_edwin_jose.CommandLine.{equal, is_blank, Command, parse}

module _ {W D : Type 0} where
  pub block_alarm : System W D → System W D
  block_alarm s = block_alrm s

  pub unblock_alarm : System W D → System W D
  unblock_alarm s = record s {
    mask = record { alrm_blocked = false; chld_blocked = s.mask.chld_blocked };
  }

-- The search of process_table[i .. i + rounds) for a process with the pid that is not TERMINATED.
pub find_live : {D : Type 0} → (rounds i pid : ℕ) → (ℕ → Pcb D) → Option ℕ
find_live zero i pid table = none
find_live (suc k) i pid table =
    let later = find_live k (i + 1) pid table in
    if (table i).pid == pid && not (is_terminated (table i).state) then some i else later

-- The five sums of the loop in `cmd_stats`.
pub record Stats (D : Type 0) : Type 0 where
  pub active : ℕ
  pub terminated : ℕ
  pub total_cpu : D
  pub total_wait : D
  pub total_switches : ℕ

module _ {W D : Type 0} (m : Machine W D) where
  pub no_stats : Stats D
  no_stats = record {
    active = 0;
    terminated = 0;
    total_cpu = m.of_int (pos 0);
    total_wait = m.of_int (pos 0);
    total_switches = 0;
  }

  -- One round of the loop.
  pub add_stats : Pcb D → Stats D → Stats D
  add_stats p sums = record {
    active = if is_terminated p.state then sums.active else sums.active + 1;
    terminated = if is_terminated p.state then sums.terminated + 1 else sums.terminated;
    total_cpu = m.add sums.total_cpu p.cpu_time_ms;
    total_wait = m.add sums.total_wait p.wait_time_ms;
    total_switches = sums.total_switches + p.context_switches;
  }

  -- The loop over process_table[i .. i + rounds).
  pub sum_stats : (rounds i : ℕ) → (ℕ → Pcb D) → Stats D → Stats D
  sum_stats zero i table sums = sums
  sum_stats (suc k) i table sums = sum_stats k (i + 1) table (add_stats (table i) sums)

  -- The totals, and the averages of the processor and the waiting times if there is a process.
  pub cmd_stats : System W D → Stats D × Option (D × D) × System W D
  cmd_stats s =
      let s1 = block_alarm s in
      let sums = sum_stats s1.process_count 0 s1.process_table no_stats in
      let n = m.of_int (pos s1.process_count) in
      (
        sums,
        if s1.process_count == 0
            then none
            else some (m.div sums.total_cpu n, m.div sums.total_wait n),
        unblock_alarm s1,
      )

  -- What the search for the pid gave: out of the queue unless it runs, and killed.
  unfoldable pub kill_found : ℕ → Option ℕ → System W D → System W D
  kill_found pid none s = s
  kill_found pid (some i) s =
      let s1 =
        if is_running (s.process_table i).state
        then s
        else record s { rq = (ReadyQueue.remove i s.rq).1 } in
      (State.kill m pid sigkill s1).1

  -- From the blocking of the two signals to their restoration.
  unfoldable pub kill_pid : ℕ → System W D → System W D
  kill_pid pid s =
      let s1 = block_chld (block_alrm s) in
      restore_mask s.mask (kill_found pid (find_live s1.process_count 0 pid s1.process_table) s1)

  unfoldable pub kill_parsed : ℤ → System W D → System W D
  kill_parsed (pos zero) s = s
  kill_parsed (pos (suc n)) s = kill_pid (suc n) s
  kill_parsed (negsuc n) s = s

  pub cmd_kill_proc : Option CString → System W D → System W D
  cmd_kill_proc none s = s
  cmd_kill_proc (some arg) s = if is_blank (some arg) then s else kill_parsed (m.atoi arg) s

  -- The slice is within its limits: it is set, the timer is armed again if it runs, and told.
  pub change_slice : ℤ → System W D → System W D
  change_slice ms s =
      let old_ms = Timer.get_slice s.timer in
      let s1 = record s { timer = Timer.set_slice ms s.timer } in
      let s2 = if State.is_running s1 then in_world s1 (Timer.start m s1.timer s1.world) else s1 in
      let (mon, w) = Monitor.emit_slice_changed m old_ms ms s2.monitor s2.world in
      record s2 { monitor = mon; world = w }

  pub cmd_slice : Option CString → System W D → System W D
  cmd_slice none s = s
  cmd_slice (some arg) s =
      let ms = m.atoi arg in
      if is_blank (some arg)
      then s
      else if ltb_ℤ ms (pos 50) || ltb_ℤ (pos 5000) ms
      then s
      else change_slice ms s

  pub set_log : Bool → System W D → System W D
  set_log val s =
      let (mon, w) = Monitor.set_enabled m val s.monitor s.world in
      record s { monitor = mon; world = w }

  -- `log on`, `log off`, or a message.
  pub cmd_log : Option CString → System W D → System W D
  cmd_log none s = s
  cmd_log (some arg) s =
      if is_blank (some arg)
      then s
      else if equal arg (codes "on")
      then set_log true s
      else if equal arg (codes "off")
      then set_log false s
      else s

  -- The tail of `exit`.
  pub leave : System W D → System W D
  leave s =
      let s1 = Start.stop m (block_alarm s) in
      let (mon, w) = Monitor.close m s1.monitor s1.world in
      unblock_alarm (record s1 { monitor = mon; world = w })

-- The paths of the server, of the client and of the socket.
pub pair_paths : CString → Option (CString × CString × CString)
pair_paths name =
    if equal name (codes "ping_pong")
    then some (
      codes "programs/bin/ping_pong_server",
      codes "programs/bin/ping_pong_client",
      codes "/tmp/minios_pingpong.sock",
    )
    else if equal name (codes "productor_consumidor")
    then some (
      codes "programs/bin/productor",
      codes "programs/bin/consumidor",
      codes "/tmp/minios_prodcons.sock",
    )
    else none

module _ {W D : Type 0} (m : Machine W D) (t : Platform) where
  -- The last step of `run`; the second word of the command only reaches the child.
  pub run_created : Option ℕ → System W D → System W D
  run_created none s = s
  run_created (some idx) s =
      if not (State.is_running s) && not (ReadyQueue.is_empty s.rq)
      then Start.start m t (Timer.get_slice s.timer) s
      else s

  pub cmd_run : Option CString → Option CString → System W D → System W D
  cmd_run none arg s = s
  cmd_run (some path) arg s =
      let (found, w) = m.access path s.world in
      let s1 = in_world s w in
      let (idx, s2) = create_process m t path s1 in
      if is_blank (some path) then s else if found then run_created idx s2 else s1

  -- After the second process of a pair.
  pub second_created : Option ℕ → System W D → System W D
  second_created none s = s
  second_created (some idx) s =
      if not (State.is_running s) then Start.start m t (Timer.get_slice s.timer) s else s

  -- After the first.
  pub first_created : CString → Option ℕ → System W D → System W D
  first_created client_path none s = s
  first_created client_path (some idx) s =
      let (idx2, s1) = create_process m t client_path s in second_created idx2 s1

  -- Both binaries must be there; then the old socket is removed and the two are created.
  pub launch_pair : CString → CString → CString → System W D → System W D
  launch_pair server_path client_path sock_path s =
      let (server_found, w1) = m.access server_path s.world in
      let (client_found, w2) = m.access client_path w1 in
      let (idx, s1) = create_process m t server_path (in_world s (m.unlink sock_path w2)) in
      if not server_found
      then in_world s w1
      else if not client_found
      then in_world s w2
      else first_created client_path idx s1

  pub cmd_runpair : Option CString → System W D → System W D
  cmd_runpair none s = s
  cmd_runpair (some name) s = if is_blank (some name) then s else elim (pair_paths name) [
    | none ↦ s
    | some (server_path, client_path, sock_path) ↦ launch_pair server_path client_path sock_path s
  ]

  -- Whether the loop goes on, and the state. `ps` and `inspect` print between the
  -- two calls.
  pub perform : Command → System W D → Bool × System W D
  perform Command.help s = (true, s)
  perform (Command.run arg arg2) s = (true, unblock_alarm (cmd_run arg arg2 (block_alarm s)))
  perform Command.ps s = (true, unblock_alarm (block_alarm s))
  perform (Command.kill arg) s = (true, cmd_kill_proc m arg s)
  perform (Command.slice arg) s = (true, cmd_slice m arg s)
  perform (Command.inspect arg) s =
      (true, if is_blank arg then s else unblock_alarm (block_alarm s))
  perform (Command.runpair arg) s = (true, unblock_alarm (cmd_runpair arg (block_alarm s)))
  perform Command.stats s = (true, (cmd_stats m s).2)
  perform (Command.log arg) s = (true, cmd_log m arg s)
  perform Command.exit s = (false, leave m s)
  perform Command.unknown s = (true, s)

  -- The main loop, until the lines end or `exit`.
  pub shell_run : List (CString × Option CString × Option CString) → System W D → System W D
  shell_run [] s = s
  shell_run ((cmd, arg, arg2) ∷ lines) s =
      let (more, s1) = perform (parse cmd arg arg2) s in
      let rest = shell_run lines s1 in if more then rest else s1
