-- ===== src/Tests/Data.antt =====
-- A kernel that obeys, whose outside world is the number of children that have not been waited for, and
-- a table of two processes, the first of which runs.
use minios_lab_edwin_jose.Base.{
  ℕ, zero, suc, ◌+◌, ◌<◌, ◌≡◌, ◌≢◌, refl, true, false, Option, none, some, [], ◌==◌, if◌then◌else◌,
  arith, some-eq-some,
}
use minios_lab_edwin_jose.Base.Int.{pos}
use minios_lab_edwin_jose.Machine.{
  Machine, Timespec, WaitTarget, any_child, child, WaitFlags, WaitResult, WaitStatus, not_yet,
  changed, exited, stopped, broken, CountsChildren, nohang,
}
use minios_lab_edwin_jose.Pcb.{Pcb, ProcState, new, ready, running, terminated}
use minios_lab_edwin_jose.Platform.Context.{zero_context}
use minios_lab_edwin_jose.ReadyQueue.{ReadyQueue}
use minios_lab_edwin_jose.ReadyQueue.Contents.{IsRing}
use minios_lab_edwin_jose.Scheduler.State.{System}
use minios_lab_edwin_jose.Scheduler.View.{states, WellFormed, Switching}
use minios_lab_edwin_jose.Scheduler.Tick.Rotation.{Cooperative}

abbrev pub epoch : Timespec
epoch = record { tv_sec = pos 0; tv_nsec = pos 0 }

-- Without WNOHANG a child is found stopped; with it a child has exited, while there is one.
abbrev pub obey_wait : WaitTarget → WaitFlags → ℕ → WaitResult × ℕ
obey_wait (child pid) flags w = (changed pid (stopped 19), w)
obey_wait any_child flags zero = (not_yet, 0)
obey_wait any_child flags (suc w) = (changed (100 + w) (exited 0), w)

abbrev pub obedient : Machine ℕ ℕ
obedient = record {
  fork = λ w. (some (100 + w), w + 1);
  kill = λ pid sig w. (true, w);
  waitpid = obey_wait;
  clock_gettime = λ w. (epoch, w);
  setitimer = λ v w. w;
  ptrace_traceme = λ w. (true, w);
  ptrace_getregs = λ pid w. (none, w);
  ptrace_attach = λ pid w. (true, w);
  ptrace_detach = λ pid sig w. (true, w);
  socket = λ w. (some 3, w);
  connect = λ fd path w. (true, w);
  set_nonblock = λ fd w. w;
  write = λ fd bytes w. (broken, w);
  close = λ fd w. w;
  access = λ path w. (true, w);
  unlink = λ path w. w;
  strdup = λ path w. (true, w);
  basename = λ path. path;
  atoi = λ s. pos 0;
  format = λ pieces. [];
  of_int = λ n. 0;
  add = ◌+◌;
  mul = λ a b. a;
  div = λ a b. a;
}

pub obedient-Cooperative : Cooperative obedient
obedient-Cooperative = record { delivers = λ pid sig w. refl; stops = λ pid w. refl }

pub obedient-reaped :
    (w pid : ℕ) (status : WaitStatus)
    → (obey_wait any_child nohang w).0 ≡ changed pid status
    → (obey_wait any_child nohang w).1 < w
obedient-reaped zero pid status e = cc
obedient-reaped (suc w) pid status e = omega arith

pub obedient-CountsChildren : CountsChildren obedient (λ w. w)
obedient-CountsChildren = record {
  reaped = obedient-reaped;
  clock_gettime_le = λ w. omega arith;
  kill_le = λ pid sig w. omega arith;
  setitimer_le = λ v w. omega arith;
  socket_le = λ w. omega arith;
  connect_le = λ fd path w. omega arith;
  set_nonblock_le = λ fd w. omega arith;
  write_le = λ fd bytes w. omega arith;
  close_le = λ fd w. omega arith;
}

abbrev pub state_of : ℕ → ProcState
state_of zero = running
state_of (suc zero) = ready
state_of (suc (suc zero)) = terminated
state_of _ = new

abbrev pub entry : ProcState → ℕ → Pcb ℕ
entry st i = record {
  pid = 100 + i;
  name = [];
  state = st;
  registers = zero_context;
  regs_valid = false;
  created_at = epoch;
  last_started = epoch;
  cpu_time_ms = 0;
  wait_time_ms = 0;
  context_switches = 0;
}

-- Index 1 waits, alone.
abbrev pub one_waiting : ReadyQueue
one_waiting = record { slots = λ i. 1; front = 9; rear = 0; count = 1 }

abbrev pub two : System ℕ ℕ
two = record {
  process_table = λ i. entry (state_of i) i;
  process_count = 2;
  rq = one_waiting;
  current_running = some 0;
  scheduler_active = true;
  timer = record { current_slice_ms = pos 500; tick_installed = true };
  monitor = record { sock_fd = none; enabled = true };
  mask = record { alrm_blocked = false; chld_blocked = false };
  world = 2;
}

pub one_waiting-IsRing : IsRing one_waiting
one_waiting-IsRing = omega arith

pub two-only : (j : ℕ) → state_of j ≡ running → ◌≡◌ {A = Option ℕ} (some 0) (some j)
two-only zero e = refl
two-only (suc zero) e = cc
two-only (suc (suc zero)) e = cc
two-only (suc (suc (suc j))) e = cc

pub two-current : (j : ℕ) → ◌≡◌ {A = Option ℕ} (some 0) (some j) → (j < 2) × (state_of j ≡ running)
two-current zero e = (omega arith, refl)
two-current (suc j) e = absurd (omega (arith, some-eq-some e))

pub two-WellFormed : WellFormed two
two-WellFormed = (
  one_waiting-IsRing,
  record {
    queue = record { fits = omega arith; waiting = ((omega arith, refl), tt); distinct = (tt, tt) };
    current = two-current;
    only = two-only;
    active = refl;
  },
)

abbrev pub paused : System ℕ ℕ
paused = record two {
  process_table = λ i. entry (if i == 1 then ready else new) i;
  current_running = none;
  scheduler_active = false;
}

pub paused-none_running : (j : ℕ) → states paused j ≢ running
paused-none_running j e = ground arith

pub paused-Switching : Switching paused
paused-Switching = (
  one_waiting-IsRing,
  record {
    queue = record { fits = omega arith; waiting = ((omega arith, refl), tt); distinct = (tt, tt) };
    none_running = paused-none_running;
  },
)

pub paused-WellFormed : WellFormed paused
paused-WellFormed = (
  one_waiting-IsRing,
  record {
    queue = paused-Switching.1.queue;
    current = λ j e. cc;
    only = λ j e. absurd (paused-none_running j e);
    active = refl;
  },
)

-- The pid of a terminated process, given again to the second one.
abbrev pub recycled : System ℕ ℕ
recycled = record two {
  process_table = λ i. record (entry (if i == 0 then terminated else ready) i) { pid = 100 };
  current_running = none;
  scheduler_active = false;
}

-- The same with the third entry, which is TERMINATED, in the table.
abbrev pub three : System ℕ ℕ
three = record two { process_count = 3 }

pub three-WellFormed : WellFormed three
three-WellFormed = (
  one_waiting-IsRing,
  record {
    queue = record { fits = omega arith; waiting = ((omega arith, refl), tt); distinct = (tt, tt) };
    current = λ j e. (omega (arith, (two-current j e).0), (two-current j e).1);
    only = two-only;
    active = refl;
  },
)
