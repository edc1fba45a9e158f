-- ===== src/Scheduler/Sigchld.antt =====
-- `scheduler_sigchld` of src/scheduler.c, the handler of SIGCHLD.
pub mod Laws
pub mod Total
pub mod Recycled
pub mod Terminated
pub mod Lasting
pub mod Exclusive
use minios_lab_edwin_jose.Base.{
  ℕ, zero, suc, ◌+◌, Bool, true, false, Option, none, some, ◌==◌, if◌then◌else◌,
}
use minios_lab_edwin_jose.Machine.{
  Machine, WaitStatus, WaitResult, interrupted, failed, not_yet, changed, any_child, nohang,
  is_dead,
}
use minios_lab_edwin_jose.Pcb.{Pcb, terminated, is_terminated}
use minios_lab_edwin_jose.Platform.{Platform}
use minios_lab_edwin_jose.ReadyQueue
use minios_lab_edwin_jose.Scheduler.State.{
  System, put, set_state, clock, waitpid, emit_terminated, emit_switch, block_alrm, restore_mask,
}
use minios_lab_edwin_jose.Scheduler.Dispatch.{charge, idle, dispatch}

-- The search of process_table[i .. i + rounds) for a pid: the first index that has it.
pub find_pid : (rounds i pid : ℕ) → (ℕ → ℕ) → Option ℕ
find_pid zero i pid pids = none
find_pid (suc k) i pid pids =
    let later = find_pid k (i + 1) pid pids in if pids i == pid then some i else later

-- idx == current_running
abbrev pub is_current : {W D : Type 0} → ℕ → System W D → Bool
is_current idx s = elim s.current_running [ none ↦ false | some c ↦ idx == c ]

module _ {W D : Type 0} (m : Machine W D) (t : Platform) where
  -- After the loop: the process that was resumed is the current one, or the system goes idle.
  pub resumed : ℕ → Option ℕ → System W D → System W D
  resumed pid none s = idle m s
  resumed pid (some i) s = record (emit_switch m pid (s.process_table i).pid s) {
    current_running = some i;
  }

  -- The running process has ended: the next one, or idle. `pid` is the one that ended.
  pub replace_running : ℕ → System W D → System W D
  replace_running pid s =
      let s1 = record s { current_running = none } in
      if ReadyQueue.is_empty s1.rq
      then idle m s1
      else let (next, s2) = dispatch m t (ReadyQueue.size s1.rq) s1 in resumed pid next s2

  -- TERMINATED, reported, and taken out of the ready queue.
  pub mark_dead : ℕ → ℕ → System W D → System W D
  mark_dead pid idx s =
      let s1 = set_state idx terminated s in
      let p = s1.process_table idx in
      let s2 = emit_terminated m pid p.cpu_time_ms p.context_switches s1 in
      record s2 { rq = (ReadyQueue.remove idx s2.rq).1 }

  -- A process of the table has ended that was not yet known to have.
  pub reap_process : ℕ → ℕ → System W D → System W D
  reap_process pid idx s =
      let (now, s1) = clock m s in
      let s2 = if is_current idx s1 then charge m idx now s1 else s1 in
      let s3 = mark_dead pid idx s2 in if is_current idx s3 then replace_running pid s3 else s3

  -- What the search for the pid gave.
  pub reap_found : ℕ → Option ℕ → System W D → System W D
  reap_found pid none s = s
  reap_found pid (some idx) s =
      if is_terminated (s.process_table idx).state then s else reap_process pid idx s

  -- One round of the loop.
  pub reap : ℕ → WaitStatus → System W D → System W D
  reap pid status s =
      if is_dead status
      then reap_found pid (find_pid s.process_count 0 pid (λ i. (s.process_table i).pid)) s
      else s

  -- `while ((pid = waitpid(-1, &status, WNOHANG)) > 0)`; `none` if the fuel runs out.
  pub reap_all : ℕ → System W D → Option (System W D)
  reap_all zero s = none
  reap_all (suc fuel) s =
      let (r, s1) = waitpid m any_child nohang s in
      elim r [ changed pid status ↦ reap_all fuel (reap pid status s1) | _ ↦ some s1 ]

  pub sigchld : ℕ → System W D → Option (System W D)
  sigchld fuel s =
      let old = s.mask in
      elim (reap_all fuel (block_alrm s)) [ none ↦ none | some s1 ↦ some (restore_mask old s1) ]
