-- ===== src/Scheduler/Start.antt =====
-- `scheduler_start` and `scheduler_stop` of src/scheduler.c.
pub mod Laws
pub mod Lasting
pub mod Exclusive
pub mod Killing
use minios_lab_edwin_jose.Base.{
  ℕ, zero, suc, ◌+◌, Bool, true, false, Option, none, some, if◌then◌else◌,
}
use minios_lab_edwin_jose.Base.Int.{ℤ, pos}
use minios_lab_edwin_jose.Machine.{Machine, sigkill, child, blocking}
use minios_lab_edwin_jose.Pcb.{ready, terminated, is_terminated}
use minios_lab_edwin_jose.Platform.{Platform}
use minios_lab_edwin_jose.ReadyQueue
use minios_lab_edwin_jose.Timer
use minios_lab_edwin_jose.Monitor
use minios_lab_edwin_jose.Scheduler.State.{System, set_state, in_world, kill, waitpid, stop_timer}
use minios_lab_edwin_jose.Scheduler.Dispatch.{mark_running, resume}

module _ {W D : Type 0} (m : Machine W D) (t : Platform) where
  -- Step 5: the timer runs and the first segment is announced, from the pid 0.
  pub activate : ℤ → ℕ → System W D → System W D
  activate slice_ms idx s =
      let s1 = record s { scheduler_active = true; timer = Timer.init slice_ms s.timer } in
      let s2 = in_world s1 (Timer.start m s1.timer s1.world) in
      let (mon, w) =
        Monitor.emit_switch m 0 (s2.process_table idx).pid slice_ms s2.monitor s2.world in
      record s2 { monitor = mon; world = w }

  -- Step 5, or the way back if the process could not be resumed.
  pub launched : Bool → ℤ → ℕ → System W D → System W D
  launched true slice_ms idx s = activate slice_ms idx s
  launched false slice_ms idx s =
      let s1 = record (set_state idx ready s) { current_running = none } in
      record s1 { rq = (ReadyQueue.enqueue idx s1.rq).1 }

  -- Steps 3 to 5, for the index that was dequeued.
  pub launch : ℤ → ℕ → System W D → System W D
  launch slice_ms idx s =
      let s1 = record (mark_running m t idx s) { current_running = some idx } in
      let (done, s2) = resume m t (s1.process_table idx).pid s1 in launched done slice_ms idx s2

  pub start : ℤ → System W D → System W D
  start slice_ms s =
      if ReadyQueue.is_empty s.rq
      then s
      else let (out, q) = ReadyQueue.dequeue s.rq in
        let s1 = record s { rq = q } in elim out [ none ↦ s1 | some idx ↦ launch slice_ms idx s1 ]

module _ {W D : Type 0} (m : Machine W D) where
  -- One round of the loop of `scheduler_stop`.
  pub stop_one : ℕ → System W D → System W D
  stop_one i s =
      if is_terminated (s.process_table i).state
      then s
      else let s1 = (kill m (s.process_table i).pid sigkill s).1 in
        let s2 = (waitpid m (child (s1.process_table i).pid) blocking s1).1 in
        set_state i terminated s2

  -- The loop over process_table[i .. i + rounds).
  pub stop_all : (rounds i : ℕ) → System W D → System W D
  stop_all zero i s = s
  stop_all (suc k) i s = stop_all k (i + 1) (stop_one i s)

  pub stop : System W D → System W D
  stop s =
      let s1 = record (stop_timer m s) { scheduler_active = false } in
      record (stop_all s1.process_count 0 s1) { current_running = none }
