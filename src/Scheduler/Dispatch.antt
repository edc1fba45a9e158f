-- ===== src/Scheduler/Dispatch.antt =====
-- The part of src/scheduler.c that hands the processor over: the loop that takes the next process from
-- the ready queue, which the handlers of SIGALRM and of SIGCHLD both contain, going idle, and the
-- charging of a slice to the process that ran it and to those that waited.
pub mod Charge
pub mod Children
pub mod Lasting
pub mod Laws
pub mod Exclusive
pub mod Policy
use minios_lab_edwin_jose.Base.{
  ℕ, zero, suc, ◌+◌, ◌&&◌, not, Bool, true, false, Option, none, some, ◌==◌, if◌then◌else◌, update,
}
use minios_lab_edwin_jose.Machine.{Machine, Timespec, sigcont}
use minios_lab_edwin_jose.Pcb.{Pcb, running, terminated, is_ready, is_terminated}
use minios_lab_edwin_jose.Platform
use minios_lab_edwin_jose.Platform.{Platform}
use minios_lab_edwin_jose.ReadyQueue
use minios_lab_edwin_jose.Scheduler.State.{
  System, timespec_diff_ms, put, set_state, in_world, clock, stop_timer, report_terminated,
}

-- The loop over process_table[i .. i + rounds) that adds `elapsed` to the waiting time of the READY
-- processes other than `self`.
pub charge_waiting :
    {W D : Type 0} → Machine W D → (rounds i self : ℕ) → D → (ℕ → Pcb D) → ℕ → Pcb D
charge_waiting m zero i self elapsed table = table
charge_waiting m (suc k) i self elapsed table = charge_waiting m k (i + 1) self elapsed (
    if not (i == self) && is_ready (table i).state
    then update table i (record (table i) { wait_time_ms = m.add (table i).wait_time_ms elapsed })
    else table)

module _ {W D : Type 0} (m : Machine W D) where
  -- cpu_time_ms += elapsed, then the loop.
  pub charge : ℕ → Timespec → System W D → System W D
  unfolding charge_waiting
  charge i now s =
      let p = s.process_table i in
      let elapsed = timespec_diff_ms m now p.last_started in
      let s1 = put i (record p { cpu_time_ms = m.add p.cpu_time_ms elapsed }) s in
      record s1 { process_table = charge_waiting m s1.process_count 0 i elapsed s1.process_table }

  -- current_running = -1; timer_stop(); scheduler_active = 0
  pub idle : System W D → System W D
  unfolding stop_timer
  idle s = record (stop_timer m (record s { current_running = none })) { scheduler_active = false }

module _ {W D : Type 0} (m : Machine W D) (t : Platform) where
  unfoldable pub resume : ℕ → System W D → Bool × System W D
  resume pid s = let (done, w) = Platform.resume_process m t pid s.world in (done, in_world s w)

  -- state = PROC_RUNNING; clock_gettime(CLOCK_MONOTONIC, &last_started)
  unfoldable pub mark_running : ℕ → System W D → System W D
  unfolding clock
  mark_running i s =
      let s1 = set_state i running s in
      let (now, s2) = clock m s1 in put i (record (s2.process_table i) { last_started = now }) s2

  -- A candidate is marked RUNNING and sent SIGCONT.
  pub attempt : ℕ → System W D → Bool × System W D
  attempt candidate s =
      let s1 = mark_running candidate s in resume (s1.process_table candidate).pid s1

  -- A candidate that could not be resumed is given up.
  pub discard : ℕ → System W D → System W D
  discard candidate s = report_terminated m candidate (set_state candidate terminated s)

  -- `while (!rq_is_empty()) { ... }`: the index of the process that was resumed, if any was. Each
  -- round takes an entry, so as many rounds as there are entries are enough.
  pub dispatch : ℕ → System W D → Option ℕ × System W D
  dispatch zero s = (none, s)
  dispatch (suc fuel) s =
      let s1 = record s { rq = (ReadyQueue.dequeue s.rq).1 } in
      elim (ReadyQueue.is_empty s.rq) [
        | true ↦ (none, s)
        | false ↦ elim (ReadyQueue.dequeue s.rq).0 [
          | none ↦ dispatch fuel s1
          | some candidate ↦ elim (is_terminated (s1.process_table candidate).state) [
            | true ↦ dispatch fuel s1
            | false ↦
                let s2 = (attempt candidate s1).1 in
                elim (attempt candidate s1).0 [
                  | true ↦ (some candidate, s2)
                  | false ↦ dispatch fuel (discard candidate s2)
                ]
          ]
        ]
      ]
