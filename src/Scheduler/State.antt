-- ===== src/Scheduler/State.antt =====
-- The state that src/scheduler.c works on: the process table of src/pcb.c, its own static variables,
-- those of the ready queue, the timer and the monitor, the signal mask of the process, and the
-- outside world. The functions here are its getters, `scheduler_init`, and its calls of the kernel
-- and of the other modules, each as a step of that state.
use minios_lab_edwin_jose.Base.{ℕ, Bool, true, false, Option, none, update}
use minios_lab_edwin_jose.Base.Int.{pos, ◌-ℤ◌}
use minios_lab_edwin_jose.Machine.{Machine, Signal, Timespec, WaitTarget, WaitFlags, WaitResult}
use minios_lab_edwin_jose.Pcb.{Pcb, ProcState}
use minios_lab_edwin_jose.ReadyQueue
use minios_lab_edwin_jose.ReadyQueue.{ReadyQueue}
use minios_lab_edwin_jose.Timer
use minios_lab_edwin_jose.Timer.{Timer}
use minios_lab_edwin_jose.Monitor
use minios_lab_edwin_jose.Monitor.{Monitor}

-- Which of the two signals that the program handles are blocked.
pub record SigMask : Type 0 where
  pub alrm_blocked : Bool
  pub chld_blocked : Bool

pub record System (W D : Type 0) : Type 0 where
  pub process_table : ℕ → Pcb D
  pub process_count : ℕ
  pub rq : ReadyQueue
  -- `none` for -1
  pub current_running : Option ℕ
  pub scheduler_active : Bool
  pub timer : Timer
  pub monitor : Monitor
  pub mask : SigMask
  pub world : W

-- `timespec_diff_ms`, with the operations of `double`.
unfoldable pub timespec_diff_ms : {W D : Type 0} → Machine W D → Timespec → Timespec → D
timespec_diff_ms m end start =
    m.add (m.mul (m.of_int (end.tv_sec -ℤ start.tv_sec)) (m.of_int (pos 1000)))
      (m.div (m.of_int (end.tv_nsec -ℤ start.tv_nsec)) (m.of_int (pos 1_000_000)))

module _ {W D : Type 0} where
  unfoldable pub init : System W D → System W D
  init s = record s {
    process_count = 0;
    current_running = none;
    scheduler_active = false;
    rq = ReadyQueue.init s.rq;
  }

  unfoldable pub get_running : System W D → Option ℕ
  get_running s = s.current_running

  unfoldable pub is_running : System W D → Bool
  is_running s = s.scheduler_active

  -- process_table[i] = p
  abbrev pub put : ℕ → Pcb D → System W D → System W D
  put i p s = record s { process_table = update s.process_table i p }

  -- process_table[i].state = st
  abbrev pub set_state : ℕ → ProcState → System W D → System W D
  set_state i st s = put i (record (s.process_table i) { state = st }) s

  abbrev pub in_world : System W D → W → System W D
  in_world s w = record s { world = w }

  -- sigprocmask(SIG_BLOCK, ...) on SIGCHLD or on SIGALRM, and sigprocmask(SIG_SETMASK, &oldmask, ...)
  abbrev pub block_chld : System W D → System W D
  block_chld s = record s {
    mask = record { alrm_blocked = s.mask.alrm_blocked; chld_blocked = true };
  }

  abbrev pub block_alrm : System W D → System W D
  block_alrm s = record s {
    mask = record { alrm_blocked = true; chld_blocked = s.mask.chld_blocked };
  }

  abbrev pub restore_mask : SigMask → System W D → System W D
  restore_mask old s = record s { mask = old }

module _ {W D : Type 0} (m : Machine W D) where
  unfoldable pub kill : ℕ → Signal → System W D → Bool × System W D
  kill pid sig s = let (done, w) = m.kill pid sig s.world in (done, in_world s w)

  unfoldable pub waitpid : WaitTarget → WaitFlags → System W D → WaitResult × System W D
  waitpid target flags s = let (r, w) = m.waitpid target flags s.world in (r, in_world s w)

  unfoldable pub clock : System W D → Timespec × System W D
  clock s = let (now, w) = m.clock_gettime s.world in (now, in_world s w)

  unfoldable pub stop_timer : System W D → System W D
  stop_timer s = in_world s (Timer.stop m s.world)

  unfoldable pub emit_terminated : ℕ → D → ℕ → System W D → System W D
  emit_terminated pid cpu_ms switches s =
      let (mon, w) = Monitor.emit_terminated m pid cpu_ms switches s.monitor s.world in
      record s { monitor = mon; world = w }

  unfoldable pub emit_switch : ℕ → ℕ → System W D → System W D
  emit_switch from_pid to_pid s =
      let (mon, w) =
        Monitor.emit_switch m from_pid to_pid (Timer.get_slice s.timer) s.monitor s.world in
      record s { monitor = mon; world = w }

  -- The calls of monitor_emit_terminated with the fields of process_table[i].
  unfoldable pub report_terminated : ℕ → System W D → System W D
  unfolding emit_terminated
  report_terminated i s =
      let p = s.process_table i in emit_terminated p.pid p.cpu_time_ms p.context_switches s
