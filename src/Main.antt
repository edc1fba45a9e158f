-- ===== src/Main.antt =====
-- src/main.c: what happens before the shell runs. The handlers of SIGINT, SIGCHLD and SIGPIPE are
-- installed by the kernel's calls and leave no trace in the state.
pub mod Laws
pub mod Ending
use minios_lab_edwin_jose.Base.{true, false, none, Option, List}
use minios_lab_edwin_jose.Base.Int.{pos}
use minios_lab_edwin_jose.Machine.{Machine, CString}
use minios_lab_edwin_jose.Platform.{Platform}
use minios_lab_edwin_jose.Shell.{shell_run}
use minios_lab_edwin_jose.Pcb.{blank}
use minios_lab_edwin_jose.Timer
use minios_lab_edwin_jose.Monitor
use minios_lab_edwin_jose.Scheduler.State
use minios_lab_edwin_jose.Scheduler.State.{System}
use minios_lab_edwin_jose.Scheduler.Start

module _ {W D : Type 0} (m : Machine W D) where
  -- The static variables as the program is loaded.
  pub loaded : W → System W D
  loaded w = record {
    process_table = λ i. blank m;
    process_count = 0;
    rq = record { slots = λ i. 0; front = 0; rear = 0; count = 0 };
    current_running = none;
    scheduler_active = false;
    timer = record { current_slice_ms = pos 500; tick_installed = false };
    monitor = record { sock_fd = none; enabled = false };
    mask = record { alrm_blocked = false; chld_blocked = false };
    world = w;
  }

  -- scheduler_init(); timer_set_slice(500); monitor_set_enabled(1)
  pub boot : System W D → System W D
  boot s =
      let s1 = State.init s in
      let s2 = record s1 { timer = Timer.set_slice (pos 500) s1.timer } in
      let (mon, w) = Monitor.set_enabled m true s2.monitor s2.world in
      record s2 { monitor = mon; world = w }

  -- The state that the handler of SIGINT leaves to `_exit`.
  pub sigint_handler : System W D → System W D
  sigint_handler s = Start.stop m s

  -- The shell runs on the lines that are typed, as their first three words, and is left at their end or by `exit`.
  pub main : Platform → List (CString × Option CString × Option CString) → W → System W D
  main t lines w = shell_run m t lines (boot (loaded w))
