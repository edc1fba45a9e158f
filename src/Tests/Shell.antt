-- ===== src/Tests/Shell.antt =====
-- The theorems on the shell, on what it prints, and on the life of the program at concrete inputs.
use minios_lab_edwin_jose.Base.{List, ◌++◌}
use minios_lab_edwin_jose.Machine.{Machine, Signal, sigkill, sigstop, sigcont}
use minios_lab_edwin_jose.Scheduler.State.{System}
use minios_lab_edwin_jose.Scheduler.Start.Killing.{LogsKills}
use minios_lab_edwin_jose.Shell.Ending.{Cleared}
use minios_lab_edwin_jose.Main.{sigint_handler}
use minios_lab_edwin_jose.Main.Ending.{endings-Cleared}
use minios_lab_edwin_jose.Tests.Data.{epoch}
use minios_lab_edwin_jose.Machine.{not_yet}
use minios_lab_edwin_jose.Base.{Option, ◌⊎◌, ◌<◌, ◌≢◌}
use minios_lab_edwin_jose.Base.Int.{pos}
use minios_lab_edwin_jose.Shell.History.{Grown}
use minios_lab_edwin_jose.Shell.{kill_parsed}
use minios_lab_edwin_jose.Session.{Event}
use minios_lab_edwin_jose.Session.History.{open_mask, now, after, Reachable-mask, Later-Grown}
use minios_lab_edwin_jose.ReadyQueue.{dequeue}
use minios_lab_edwin_jose.ReadyQueue.Contents.{contents}
use minios_lab_edwin_jose.Tests.Data.{one_waiting, one_waiting-IsRing}
use minios_lab_edwin_jose.Console.Table.{rq_print}
use minios_lab_edwin_jose.Console.Table.Queue.{queue_line, rq_print-dequeue}
use minios_lab_edwin_jose.Console.Report.{report, inspect_pid, not_found}
use minios_lab_edwin_jose.Console.Report.Inspect.{inspect_pid-first}
use minios_lab_edwin_jose.Console.Commands.{print_kill_parsed}
use minios_lab_edwin_jose.Console.Commands.Kill.{Tells, print_kill-Tells}
use minios_lab_edwin_jose.Base.{
  ◌*◌, ℕ, ◌+◌, ◌<◌, ◌≡◌, refl, true, none, some, [], ◌∷◌, arith, length,
}
use minios_lab_edwin_jose.Base.Int.{pos}
use minios_lab_edwin_jose.Machine.{broken}
use minios_lab_edwin_jose.Pcb
use minios_lab_edwin_jose.Pcb.{
  Pcb, ProcState, new, ready, running, terminated, c_string, max_name_len, is_ready,
}
use minios_lab_edwin_jose.Pcb.Laws.{init-name}
use minios_lab_edwin_jose.Platform.{linux}
use minios_lab_edwin_jose.Timer
use minios_lab_edwin_jose.Timer.{Timer}
use minios_lab_edwin_jose.Timer.Laws.{interval-exact}
use minios_lab_edwin_jose.Scheduler.State.{System}
use minios_lab_edwin_jose.Scheduler.View.{WellFormed}
use minios_lab_edwin_jose.CommandLine.{Command}
use minios_lab_edwin_jose.Shell.{perform, find_live, cmd_slice, cmd_stats, unblock_alarm}
use minios_lab_edwin_jose.Shell.Laws.{goes_on}
use minios_lab_edwin_jose.Shell.Kill.{Found, find_live-Found}
use minios_lab_edwin_jose.Shell.Slice.{InLimits, cmd_slice-InLimits}
use minios_lab_edwin_jose.Shell.Totals.{dead_count, switch_count, cmd_stats-counts}
use minios_lab_edwin_jose.Main.{boot, loaded}
use minios_lab_edwin_jose.Session.{booted, next, commanded, Reachable-WellFormed}
use minios_lab_edwin_jose.Tests.Data.{obedient, two}

interval-exact_example :
    (sec : ℕ) × (usec : ℕ) × (Timer.interval two.timer ≡ record {
      value_sec = pos sec;
      value_usec = pos usec;
      interval_sec = pos sec;
      interval_usec = pos usec;
    })
    × (sec * 1_000_000 + usec ≡ 500 * 1000)
    × (usec < 1_000_000)
    × (0 < sec + usec)
interval-exact_example = interval-exact two.timer 500 refl (omega arith)

init-name_example :
    let p = (Pcb.init obedient 100 (112 ∷ 115 ∷ []) 0).0 in
    (length p.name ≡ max_name_len) × (c_string p.name ≡ 112 ∷ 115 ∷ [])
init-name_example = init-name obedient 100 (112 ∷ 115 ∷ []) 0 (omega arith)

-- `run /a` as the first command.
abbrev after_run : System ℕ ℕ
after_run =
    (perform obedient linux (Command.run (some (47 ∷ 97 ∷ [])) none)
      (boot obedient (loaded obedient 0))).1

first_run : Event obedient linux (boot obedient (loaded obedient 0)) after_run
first_run = commanded (Command.run (some (47 ∷ 97 ∷ [])) none) (boot obedient (loaded obedient 0)) (
    goes_on obedient linux (Command.run (some (47 ∷ 97 ∷ [])) none)
      (boot obedient (loaded obedient 0)) (λ e. cc))

Reachable-WellFormed_example : WellFormed after_run
Reachable-WellFormed_example =
    Reachable-WellFormed obedient linux after_run (next (booted 0) first_run)

Reachable-mask_example : after_run.mask ≡ open_mask
Reachable-mask_example = Reachable-mask obedient linux after_run (next (booted 0) first_run)

Later-Grown_example : Grown (boot obedient (loaded obedient 0)) after_run
Later-Grown_example =
    Later-Grown obedient linux (boot obedient (loaded obedient 0)) after_run (booted 0)
      (after now first_run)

find_live-Found_example : Found 2 0 101 two.process_table (find_live 2 0 101 two.process_table)
find_live-Found_example = find_live-Found two.process_table 101 2 0

cmd_slice-InLimits_example : InLimits (cmd_slice obedient (some (49 ∷ [])) two)
cmd_slice-InLimits_example =
    cmd_slice-InLimits obedient (some (49 ∷ [])) two (500, refl, omega arith, omega arith)

cmd_stats-counts_example :
    let (sums, averages, s') = cmd_stats obedient two in
    (sums.active + sums.terminated ≡ 2)
    × (sums.terminated ≡ dead_count 2 0 two.process_table)
    × (sums.total_switches ≡ switch_count 2 0 two.process_table)
    × (s' ≡ unblock_alarm two)
cmd_stats-counts_example = cmd_stats-counts obedient two

rq_print-dequeue_example :
    let (out, q') = dequeue one_waiting in
    ((out ≡ none) × (rq_print one_waiting two.process_table ≡ queue_line [] two.process_table))
    ⊎ ((x : ℕ) × (out ≡ some x)
        × (rq_print one_waiting two.process_table ≡ queue_line (x ∷ contents q') two.process_table)
        × (rq_print q' two.process_table ≡ queue_line (contents q') two.process_table))
rq_print-dequeue_example = rq_print-dequeue one_waiting two.process_table one_waiting-IsRing

inspect_pid-first_example :
    (((j : ℕ) → j < 2 → pos (two.process_table j).pid ≢ pos 101)
      × (inspect_pid linux (pos 101) 2 two.process_table ≡ not_found (pos 101)))
    ⊎ ((x : ℕ) × (x < 2)
        × (pos (two.process_table x).pid ≡ pos 101)
        × ((j : ℕ) → j < x → pos (two.process_table j).pid ≢ pos 101)
        × (inspect_pid linux (pos 101) 2 two.process_table
            ≡ report linux (pos 101) (two.process_table x)))
inspect_pid-first_example = inspect_pid-first linux (pos 101) 2 two.process_table

print_kill-Tells_example :
    (o : Option ℕ) × Found 2 0 101 two.process_table o
    × Tells obedient 100 two o
        (print_kill_parsed obedient (pos 101) two)
        (kill_parsed obedient (pos 101) two)
print_kill-Tells_example = print_kill-Tells obedient 100 two

-- A kernel whose outside world is the list of the pids that SIGKILL was sent to.
abbrev note_kill : ℕ → Signal → List ℕ → List ℕ
note_kill pid sigkill w = w ++ pid ∷ []
note_kill pid sigstop w = w
note_kill pid sigcont w = w

abbrev witnessed : Machine (List ℕ) ℕ
witnessed = record {
  fork = λ w. (none, w);
  kill = λ pid sig w. (true, note_kill pid sig w);
  waitpid = λ target flags w. (not_yet, w);
  clock_gettime = λ w. (epoch, w);
  setitimer = λ v w. w;
  ptrace_traceme = λ w. (true, w);
  ptrace_getregs = λ pid w. (none, w);
  ptrace_attach = λ pid w. (true, w);
  ptrace_detach = λ pid sig w. (true, w);
  socket = λ w. (none, w);
  connect = λ fd path w. (true, w);
  set_nonblock = λ fd w. w;
  write = λ fd bytes w. (broken, w);
  close = λ fd w. w;
  access = λ path w. (true, w);
  unlink = λ path w. w;
  strdup = λ path w. (true, w);
  basename = λ path. path;
  atoi = λ s. pos 0;
  format = λ pieces. [];
  of_int = λ n. 0;
  add = ◌+◌;
  mul = λ a b. a;
  div = λ a b. a;
}

witnessed-LogsKills : LogsKills witnessed (λ w. w)
witnessed-LogsKills = record {
  kill_logged = λ pid w. refl;
  waitpid_logged = λ target flags w. refl;
  setitimer_logged = λ v w. refl;
  close_logged = λ fd w. refl;
}

-- The two processes of `two`, before any was killed.
abbrev both_alive : System (List ℕ) ℕ
both_alive = record {
  process_table = two.process_table;
  process_count = 2;
  rq = one_waiting;
  current_running = some 0;
  scheduler_active = true;
  timer = two.timer;
  monitor = two.monitor;
  mask = open_mask;
  world = [];
}

endings-Cleared_example :
    Cleared (λ w. w) both_alive (perform witnessed linux Command.exit both_alive).1
    × Cleared (λ w. w) both_alive (sigint_handler witnessed both_alive)
endings-Cleared_example = endings-Cleared witnessed linux (λ w. w) witnessed-LogsKills both_alive
