-- ===== src/Scheduler/Create.antt =====
-- `scheduler_create_process` of src/scheduler.c. The messages on the standard error are left out.
pub mod Kept
pub mod Laws
pub mod Exclusive
pub mod Newcomer
pub mod Stages
use minios_lab_edwin_jose.Base.{
  ℕ, ◌+◌, Bool, true, false, Option, none, some, List, [], ◌∷◌, leb, if◌then◌else◌, not,
}
use minios_lab_edwin_jose.Machine.{
  Machine, CString, WaitStatus, exited, stopped, WaitResult, interrupted, failed, not_yet, changed,
  child, blocking, untraced, sigkill, is_stopped,
}
use minios_lab_edwin_jose.Fifo.{max_processes}
use minios_lab_edwin_jose.Pcb
use minios_lab_edwin_jose.Pcb.{ready, terminated, c_string}
use minios_lab_edwin_jose.Platform
use minios_lab_edwin_jose.Platform.{Platform, uses_ptrace}
use minios_lab_edwin_jose.Monitor
use minios_lab_edwin_jose.ReadyQueue
use minios_lab_edwin_jose.Scheduler.State.{System, put, set_state, in_world, kill, waitpid}

-- What the child does with itself: it becomes another program with these arguments, or ends. `execl`
-- returns on failure only, and then the child ends with status 1.
pub data ChildStart : Type 0 where
  exec : CString → List CString → ChildStart
  exit : ℕ → ChildStart

-- The arguments that `execl` is given.
pub arguments : CString → Option CString → List CString
arguments path none = path ∷ []
arguments path (some arg) = path ∷ arg ∷ []

module _ {W D : Type 0} (m : Machine W D) (t : Platform) where
  pub child_start : CString → Option CString → W → ChildStart
  child_start path arg w =
      let start = exec path (arguments path arg) in
      if uses_ptrace t then (if (Platform.trace_child m t w).0 then start else exit 1) else start

  -- kill(pid, SIGKILL); waitpid(pid, &status, 0)
  pub abandon : ℕ → System W D → System W D
  abandon pid s = (waitpid m (child pid) blocking (kill m pid sigkill s).1).1

  -- process_count++; monitor_emit_created(...)
  pub count_in : ℕ → System W D → System W D
  count_in idx s =
      let p = s.process_table idx in
      let (mon, w) = Monitor.emit_created m p.pid (c_string p.name) s.monitor s.world in
      record s { process_count = s.process_count + 1; monitor = mon; world = w }

  -- Step 9 of the source: READY, enqueued, counted and announced.
  pub enlist : ℕ → ℕ → System W D → Option ℕ × System W D
  enlist idx pid s =
      let s1 = set_state idx ready s in
      let (done, q) = ReadyQueue.enqueue idx s1.rq in
      let s2 = record s1 { rq = q } in
      if done
      then (some idx, count_in idx s2)
      else (none, set_state idx terminated (abandon pid s2))

  -- What the answer of the last `waitpid` leads to; `stale` is what `status` held before.
  pub confirmed : ℕ → ℕ → WaitStatus → WaitResult → System W D → Option ℕ × System W D
  confirmed idx pid stale interrupted s = (none, abandon pid s)
  confirmed idx pid stale failed s = (none, abandon pid s)
  confirmed idx pid stale not_yet s = if is_stopped stale then enlist idx pid s else (none, s)
  confirmed idx pid stale (changed wp status) s =
      if is_stopped status then enlist idx pid s else (none, s)

  -- Step 8: the child must be found stopped.
  pub confirm : ℕ → ℕ → WaitStatus → System W D → Option ℕ × System W D
  confirm idx pid stale s =
      let (r, s1) = waitpid m (child pid) untraced s in confirmed idx pid stale r s1

  -- process_table[idx].registers, and `regs_valid` where the registers were read.
  pub sample : ℕ → ℕ → System W D → System W D
  sample idx pid s =
      let p = s.process_table idx in
      let (got, ctx, w) = Platform.get_registers m t pid p.registers s.world in
      in_world
        (put idx (record p { registers = ctx; regs_valid = if got then true else p.regs_valid }) s)
        w

  -- Step 6 where ptrace is used: the registers, SIGSTOP, and the end of the tracing.
  pub release : ℕ → ℕ → System W D → Bool × System W D
  release idx pid s =
      let s1 = sample idx pid s in
      let (halted, w2) = Platform.stop_process m t pid s1.world in
      let (detached, w3) = Platform.detach m t pid w2 in
      if halted
      then if detached then (true, in_world s1 w3) else (false, abandon pid (in_world s1 w3))
      else (false, abandon pid (in_world s1 w2))

  -- The same step where ptrace is not used.
  pub halt : ℕ → System W D → Bool × System W D
  halt pid s =
      let (halted, w) = Platform.stop_process m t pid s.world in
      let s1 = in_world s w in if halted then (true, s1) else (false, abandon pid s1)

  -- Step 5: the new PCB, at the index `process_count`.
  pub fill_pcb : CString → ℕ → System W D → System W D
  fill_pcb path pid s =
      let idx = s.process_count in
      let (copied, w) = m.strdup path s.world in
      let (p, w2) = Pcb.init m pid (if copied then m.basename path else path) w in
      in_world (put idx p s) w2

  -- Steps 5 to 9, once the child is known to be there.
  pub set_up : CString → ℕ → WaitStatus → System W D → Option ℕ × System W D
  set_up path pid stale s =
      let idx = s.process_count in
      let s1 = fill_pcb path pid s in
      let (held, s2) = if uses_ptrace t then release idx pid s1 else halt pid s1 in
      if held then confirm idx pid stale s2 else (none, s2)

  -- What the answer of the first `waitpid` leads to.
  pub awaited : CString → ℕ → WaitResult → System W D → Option ℕ × System W D
  awaited path pid (changed wp status) s =
      if is_stopped status then set_up path pid status s else (none, abandon pid s)
  awaited path pid _ s = (none, abandon pid s)

  -- Step 4 where ptrace is used: the stop after `exec`.
  pub await_exec : CString → ℕ → System W D → Option ℕ × System W D
  await_exec path pid s = let (r, s1) = waitpid m (child pid) blocking s in awaited path pid r s1

  -- What the answer of `fork` leads to.
  pub forked : CString → Option ℕ → System W D → Option ℕ × System W D
  forked path none s = (none, s)
  forked path (some pid) s =
      if uses_ptrace t then await_exec path pid s else set_up path pid (exited 0) s

  -- The index of the new process, or `none` for -1. The child does not return from here: what it
  -- does is `child_start`.
  pub create_process : CString → System W D → Option ℕ × System W D
  create_process path s =
      let (pid, w) = m.fork s.world in
      if leb max_processes s.process_count then (none, s) else forked path pid (in_world s w)
