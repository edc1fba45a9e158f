-- ===== src/Lib.antt =====
-- miniOS: a round-robin process scheduler in user space. It forks programs, keeps one of them running
-- with SIGSTOP and SIGCONT from a periodic SIGALRM, collects the dead from SIGCHLD, and reports what it
-- does as JSON lines on a Unix socket.
--
-- The parts of the program and the files that model them (paths from the repository's root):
--
--   src/ready_queue.c      ReadyQueue: the ring buffer of process table indices, with its slots, front,
--                          rear and count; Fifo is its abstract specification, a list with a bound.
--   src/pcb.c, src/pcb.h   Pcb: the control block, the states and `pcb_init`. The process table is a
--                          function from indices to blocks in the state of the scheduler.
--   src/platform/          Platform: `platform_linux.c` as `Linux` and `platform_darwin.c` as `Darwin`,
--                          chosen by an argument; `Context` has the registers.
--   src/timer.c            Timer: the slice, and the interval timer that it arms.
--   src/monitor.c          Monitor: the connection, made when it is first needed, and the events.
--   src/scheduler.c        Scheduler: `State` has the variables of the whole program, its signal mask and
--                          the outside world in one record; `Dispatch` the loop that picks the next
--                          process, which the source has twice, and the charging of a slice; `Tick`
--                          `scheduler_tick`; `Sigchld` `scheduler_sigchld`; `Create`
--                          `scheduler_create_process`; `Start` `scheduler_start` and `scheduler_stop`.
--   src/shell.c            CommandLine: the words of a line; Shell: the commands and the main loop.
--   src/main.c             Main: the initial state and the initialisation; Session: what the program can
--                          come to when commands and signal handlers take turns.
--                          What both and the tables of src/pcb.c and src/ready_queue.c print is in
--                          Console, as lists of formatted parts: `Table`, `Report`, `Commands`.
--   programs/              Programs: `Squares` is `productor.c` with `consumidor.c`, `PingPong` the
--                          ping pong server and client, both on the `Sockets` that they open and a
--                          `Channel`; `Primes`, `Fibonacci`, `Diamond`, `Memory`, `Lottery`,
--                          `Countdown`, `Bitacora` and `BusyLoop` are `primos.c`, `fibonacci.c`,
--                          `artista_ascii.c`, `memory_hog.c`, `loteria.c`, `countdown.c`, `bitacora.c`
--                          and `busy_loop.c`; `Act` is what those that print do, line by line.
--
-- A function of the source that changes global variables is a function from the state to its result and
-- the next state. The index or file descriptor -1 is `none`. A long function is split at its branches,
-- and each part names the lines it stands for by what it does.
--
-- Machine holds what the source calls and does not contain: the kernel, the C library and the
-- arithmetic of `double`. They are parameters. Nothing is assumed of them but where a theorem says so,
-- as `Cooperative`, `CountsChildren`, `Settles`, `TracksOpen`, `LogsKills` or `Stops`, or the laws of
-- `Channel`: an int arrives whole, in the order of sending, and `recv` reports the end once the other
-- side has closed and nothing is left. RoundRobin is the abstract view of the scheduler: the states of
-- the processes, the queue as a list and the running process, with the transitions that the code goes
-- through; its child Policy relates the queue before and after a run of the dispatching loop, which the
-- modules named Policy compare the loop and the handler of SIGALRM with, and Order has the place of a process
-- in the queue.
-- `WellFormed` of Scheduler/View is the invariant of the whole state: the ring closes, the
-- queue holds distinct indices of READY processes of the table, at most one process is RUNNING, it is
-- the current one, and the scheduler is active exactly when there is one.
--
-- Scheduler/Exclusive is about the processes as the kernel has them, not as the table does. `Stops` says
-- what the calls of the kernel may wake: SIGCONT, the end of tracing and `fork` each their own process and no
-- other; and that a wait for a stop that is not interrupted has found the process stopped or gone. That `fork`
-- gives no pid a second time is not a law, since pids begin again from below: it is a condition, `NewPids`, on the
-- commands of a history, and `Undisturbed` has it beside the one on what happens outside the program.
-- `Quiet` is the invariant that the modules named Exclusive carry through every handler and command: no two
-- entries share a pid, and those that are not RUNNING are not awake. Monitor/Keeps has what the monitor's
-- calls keep.
--
-- Three loops of the source are bounded by the kernel only and run on fuel: the wait that EINTR repeats, the
-- `waitpid` loop of SIGCHLD, and the busy loop, which the clock ends. Their totality theorems say how much
-- fuel is enough. The loop that takes candidates from the queue runs for as many rounds as the queue has
-- entries.
--
-- The communicating programs are pairs of loops whose steps interleave in any order, since the scheduler
-- may stop either of them at any time; a step that waits in `recv` is possible only when there is
-- something to receive. Session/History follows the whole program from its start.
--
-- Handlers run one after the other here, and between commands: each handler blocks the other's signal
-- for its whole duration, and `run`, `runpair` and `exit` block SIGALRM. They do not block SIGCHLD:
-- Scheduler/Create/Stages has `scheduler_create_process` as steps, and Session/Interrupted lets the
-- handler of SIGCHLD run between them. A SIGCHLD between `rq_enqueue` and `process_count++` of that
-- function, inside another command, or inside `scheduler_start` is not modelled, nor are messages to the
-- standard error output and those of src/scheduler.c and src/monitor.c, `sigaction` beyond the fact that the
-- tick is installed, the overflow of `int` counters, and the padding of the socket address. The splitting of
-- a line into words, the formatting of a line and the numbers of `double` belong to the C library. The
-- JavaScript bridge and dashboard are left out; of the communicating programs only the producer can be killed here.
pub mod Base
pub mod Machine
pub mod Fifo
pub mod ReadyQueue
pub mod Platform
pub mod Pcb
pub mod RoundRobin
pub mod Timer
pub mod Monitor
pub mod Scheduler
pub mod CommandLine
pub mod Shell
pub mod Console
pub mod Main
pub mod Session
pub mod Programs
pub mod Tests
