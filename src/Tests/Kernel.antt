-- ===== src/Tests/Kernel.antt =====
-- A kernel that keeps which processes are awake, and the life of the program on it.
use minios_lab_edwin_jose.Base.{
  ℕ, suc, ◌+◌, Bool, true, none, some, List, [], ◌∷◌, arith, contains, without,
}
use minios_lab_edwin_jose.Base.Int.{pos}
use minios_lab_edwin_jose.Machine.{
  Machine, Signal, sigkill, sigstop, sigcont, WaitTarget, any_child, child, WaitFlags, WaitResult,
  not_yet, changed, stopped, broken,
}
use minios_lab_edwin_jose.Platform.{linux}
use minios_lab_edwin_jose.Scheduler.State.{System}
use minios_lab_edwin_jose.Scheduler.Exclusive.{Calm}
use minios_lab_edwin_jose.CommandLine.{Command}
use minios_lab_edwin_jose.Shell.{perform}
use minios_lab_edwin_jose.Shell.Laws.{goes_on}
use minios_lab_edwin_jose.Main.{boot, loaded}
use minios_lab_edwin_jose.Session.{Reachable, Event, booted, next, commanded, elapsed}
use minios_lab_edwin_jose.Session.Exclusive.{Exclusive}
use minios_lab_edwin_jose.Tests.Data.{epoch}

-- The next pid, and the processes that are awake.
abbrev Kernel : Type 0
Kernel = ℕ × List ℕ

abbrev is_awake : Kernel → ℕ → Bool
is_awake w p = contains p w.1

abbrev next_pid : Kernel → ℕ
next_pid w = w.0

-- SIGSTOP takes effect when the stop is waited for.
abbrev signal : ℕ → Signal → Kernel → Kernel
signal pid sigkill w = (w.0, without pid w.1)
signal pid sigstop w = w
signal pid sigcont w = (w.0, pid ∷ w.1)

abbrev wait : WaitTarget → WaitFlags → Kernel → WaitResult × Kernel
wait (child pid) flags w = (changed pid (stopped 19), (w.0, without pid w.1))
wait any_child flags w = (not_yet, w)

abbrev keeper : Machine Kernel ℕ
keeper = record {
  fork = λ w. (some w.0, (suc w.0, w.0 ∷ w.1));
  kill = λ pid sig w. (true, signal pid sig w);
  waitpid = wait;
  clock_gettime = λ w. (epoch, w);
  setitimer = λ v w. w;
  ptrace_traceme = λ w. (true, w);
  ptrace_getregs = λ pid w. (none, w);
  ptrace_attach = λ pid w. (true, w);
  ptrace_detach = λ pid sig w. (true, w);
  socket = λ w. (none, w);
  connect = λ fd path w. (true, w);
  set_nonblock = λ fd w. w;
  write = λ fd bytes w. (broken, w);
  close = λ fd w. w;
  access = λ path w. (true, w);
  unlink = λ path w. w;
  strdup = λ path w. (true, w);
  basename = λ path. path;
  atoi = λ s. pos 0;
  format = λ pieces. [];
  of_int = λ n. 0;
  add = ◌+◌;
  mul = λ a b. a;
  div = λ a b. a;
}

idle : (w : Kernel) → Calm is_awake next_pid w w
idle w = (λ p e. e, omega arith)

abbrev start_of : System Kernel ℕ
start_of = boot keeper (loaded keeper (100, []))

-- `run /a` as the first command, and then nothing for a while.
abbrev after_run : System Kernel ℕ
after_run = (perform keeper linux (Command.run (some (47 ∷ 97 ∷ [])) none) start_of).1

first_run : Event keeper linux start_of after_run
first_run =
    commanded (Command.run (some (47 ∷ 97 ∷ [])) none) start_of
      (goes_on keeper linux (Command.run (some (47 ∷ 97 ∷ [])) none) start_of (λ e. cc))

-- And then time passes.
passed : Event keeper linux after_run after_run
passed = elapsed after_run.world after_run

abbrev life : Reachable keeper linux after_run
life = next (next (booted (100, [])) first_run) passed
