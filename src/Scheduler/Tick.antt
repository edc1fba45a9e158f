-- ===== src/Scheduler/Tick.antt =====
-- `scheduler_tick` of src/scheduler.c, the handler of SIGALRM.
pub mod Laws
pub mod Total
pub mod Rotation
pub mod Lasting
pub mod Exclusive
pub mod Policy
pub mod Forward
pub mod Slice
use minios_lab_edwin_jose.Base.{
  ℕ, zero, suc, ◌+◌, ◌&&◌, not, Bool, true, false, Option, none, some, ◌==◌, if◌then◌else◌,
}
use minios_lab_edwin_jose.Machine.{
  Machine, WaitStatus, WaitResult, interrupted, failed, not_yet, changed, child, untraced, is_dead,
}
use minios_lab_edwin_jose.Pcb.{ready, terminated}
use minios_lab_edwin_jose.Platform
use minios_lab_edwin_jose.Platform.{Platform}
use minios_lab_edwin_jose.ReadyQueue
use minios_lab_edwin_jose.Scheduler.State.{
  System, SigMask, put, set_state, in_world, clock, waitpid, report_terminated, emit_switch,
  block_chld, restore_mask,
}
use minios_lab_edwin_jose.Scheduler.Dispatch.{charge, idle, dispatch}

module _ {W D : Type 0} (m : Machine W D) where
  -- `do { wp = waitpid(...); } while (wp < 0 && errno == EINTR)`; `none` if the fuel runs out.
  pub wait_stopped : ℕ → ℕ → System W D → Option (WaitResult × System W D)
  wait_stopped zero pid s = none
  wait_stopped (suc fuel) pid s =
      let (r, s1) = waitpid m (child pid) untraced s in
      elim r [ interrupted ↦ wait_stopped fuel pid s1 | other ↦ some (other, s1) ]

-- `wp == current->pid && (WIFEXITED(status) || WIFSIGNALED(status))`
pub has_died : ℕ → WaitResult → Bool
has_died pid (changed wp status) = wp == pid && is_dead status
has_died pid _ = false

module _ {W D : Type 0} (m : Machine W D) (t : Platform) where
  -- The process that ran is marked TERMINATED and does not go back to the queue.
  pub settle_dead : ℕ → System W D → System W D
  settle_dead prev s =
      let s1 = report_terminated m prev (set_state prev terminated s) in
      record s1 { current_running = none; rq = (ReadyQueue.remove prev s1.rq).1 }

  -- The process that ran is READY again, at the end of the queue.
  pub settle_alive : ℕ → System W D → System W D
  settle_alive prev s =
      let p = s.process_table prev in
      let s1 = put prev (record p { state = ready; context_switches = p.context_switches + 1 }) s in
      record s1 { rq = (ReadyQueue.enqueue prev s1.rq).1 }

  -- The process that ran is terminated, or goes to the end of the ready queue.
  pub settle : ℕ → WaitResult → System W D → System W D
  unfolding has_died
  settle prev r s =
      if has_died (s.process_table prev).pid r then settle_dead prev s else settle_alive prev s

  -- After the loop: nothing could be resumed, or process `i` runs now.
  pub finish : ℕ → SigMask → Option ℕ → System W D → System W D
  finish prev old none s = restore_mask old (idle m s)
  finish prev old (some i) s =
      let s1 = emit_switch m (s.process_table prev).pid (s.process_table i).pid s in
      restore_mask old (record s1 { current_running = some i })

  -- From the guard on the empty queue to the end of the handler.
  pub switch_to_next : ℕ → SigMask → System W D → System W D
  switch_to_next prev old s =
      if ReadyQueue.is_empty s.rq
      then restore_mask old (idle m s)
      else let (next, s1) = dispatch m t (ReadyQueue.size s.rq) s in finish prev old next s1

  -- What the handler does once the process that ran is known to have stopped or ended.
  pub after_wait : ℕ → SigMask → WaitResult → System W D → System W D
  after_wait prev old r s =
      let (now, s1) = clock m s in switch_to_next prev old (settle prev r (charge m prev now s1))

  -- Stop the running process, wait for it, and switch.
  pub preempt : ℕ → ℕ → SigMask → System W D → Option (System W D)
  preempt fuel prev old s =
      let pid = (s.process_table prev).pid in
      let s1 = in_world s (Platform.stop_process m t pid s.world).1 in
      elim (wait_stopped m fuel pid s1) [
        | none ↦ none
        | some (r, s2) ↦ some (after_wait prev old r s2)
      ]

  -- The early exit; the second argument is the running process.
  enter : ℕ → Option ℕ → SigMask → System W D → Option (System W D)
  enter fuel none old s = some (restore_mask old s)
  enter fuel (some prev) old s =
      if s.scheduler_active then preempt fuel prev old s else some (restore_mask old s)

  pub tick : ℕ → System W D → Option (System W D)
  tick fuel s = let s1 = block_chld s in enter fuel s1.current_running s.mask s1
