-- ===== src/Machine.antt =====
-- What the C program calls and does not implement: the kernel, the socket layer and the C library
-- (`fork`, `kill`, `waitpid`, `clock_gettime`, `setitimer`, `ptrace`, `socket`, `write`, `basename`,
-- `atoi`, ...) and the arithmetic of `double`. None of it is in the repository, so it is a parameter:
-- a type `W` for everything outside the process, a type `D` for `double`, and one function for each
-- call, which returns its result beside the new outside world.
use minios_lab_edwin_jose.Base.{ℕ, ◌≤◌, ◌<◌, ◌≡◌, Bool, true, false, Option, List}
use minios_lab_edwin_jose.Base.Int.{ℤ}

pub data Signal : Type 0 where
  sigkill sigstop sigcont : Signal

-- The status that `waitpid` stores: the macros WIFEXITED, WIFSIGNALED, WIFSTOPPED tell these apart.
pub data WaitStatus : Type 0 where
  exited : ℕ → WaitStatus
  signaled : ℕ → WaitStatus
  stopped : ℕ → WaitStatus
  continued : WaitStatus

abbrev pub is_stopped : WaitStatus → Bool
is_stopped (stopped n) = true
is_stopped _ = false

-- WIFEXITED(status) || WIFSIGNALED(status)
abbrev pub is_dead : WaitStatus → Bool
is_dead (exited n) = true
is_dead (signaled n) = true
is_dead _ = false

-- `interrupted` is -1 with EINTR, `failed` is -1 with any other errno, `not_yet` is 0.
pub data WaitResult : Type 0 where
  interrupted failed not_yet : WaitResult
  changed : ℕ → WaitStatus → WaitResult

-- The first argument of `waitpid`: -1, or a pid.
pub data WaitTarget : Type 0 where
  any_child : WaitTarget
  child : ℕ → WaitTarget

-- The last argument of `waitpid`: 0, WUNTRACED or WNOHANG.
pub data WaitFlags : Type 0 where
  blocking untraced nohang : WaitFlags

pub record Timespec : Type 0 where
  pub tv_sec : ℤ
  pub tv_nsec : ℤ

pub record Itimerval : Type 0 where
  pub value_sec : ℤ
  pub value_usec : ℤ
  pub interval_sec : ℤ
  pub interval_usec : ℤ

-- `struct user_regs_struct` of <sys/user.h>, as far as the program reads it.
pub record UserRegs : Type 0 where
  pub rip : ℕ
  pub rsp : ℕ
  pub rax : ℕ
  pub rbx : ℕ
  pub rcx : ℕ
  pub rdx : ℕ
  pub rsi : ℕ
  pub rdi : ℕ
  pub rbp : ℕ
  pub r8 : ℕ
  pub r9 : ℕ
  pub r10 : ℕ
  pub r11 : ℕ
  pub r12 : ℕ
  pub r13 : ℕ
  pub r14 : ℕ
  pub r15 : ℕ
  pub orig_rax : ℕ

-- What `write` on a non-blocking socket returns: a count, -1 with EAGAIN or EWOULDBLOCK, -1 else.
pub data WriteResult : Type 0 where
  wrote : ℕ → WriteResult
  would_block broken : WriteResult

-- A formatted output: literal text, `%d`, `%s`, `0x%llx`, and a `double` with a number of digits.
pub data Piece (D : Type 0) : Type 0 where
  text : List ℕ → Piece D
  dec : ℤ → Piece D
  str : List ℕ → Piece D
  hex : ℕ → Piece D
  fixed : ℕ → D → Piece D

-- A text of C, its bytes without the terminating zero.
abbrev pub CString : Type 0
CString = List ℕ

-- Where a call returns 0 or -1, the Boolean is true for 0.
pub record Machine (W D : Type 0) : Type 0 where
  -- `none` for -1, else the pid in the parent
  pub fork : W → Option ℕ × W
  pub kill : ℕ → Signal → W → Bool × W
  pub waitpid : WaitTarget → WaitFlags → W → WaitResult × W
  -- CLOCK_MONOTONIC
  pub clock_gettime : W → Timespec × W
  -- ITIMER_REAL
  pub setitimer : Itimerval → W → W
  pub ptrace_traceme : W → Bool × W
  pub ptrace_getregs : ℕ → W → Option UserRegs × W
  pub ptrace_attach : ℕ → W → Bool × W
  -- the number is the signal to deliver, 0 for none
  pub ptrace_detach : ℕ → ℕ → W → Bool × W
  -- socket(AF_UNIX, SOCK_STREAM, 0): `none` for -1
  pub socket : W → Option ℕ × W
  pub connect : ℕ → CString → W → Bool × W
  -- fcntl(F_GETFL), then fcntl(F_SETFL) with O_NONBLOCK
  pub set_nonblock : ℕ → W → W
  pub write : ℕ → List ℕ → W → WriteResult × W
  pub close : ℕ → W → W
  -- access(path, X_OK)
  pub access : CString → W → Bool × W
  pub unlink : CString → W → W
  -- whether the allocation of `strdup` succeeds
  pub strdup : CString → W → Bool × W
  pub basename : CString → CString
  pub atoi : CString → ℤ
  -- the bytes that `snprintf` would store in a buffer without a limit
  pub format : List (Piece D) → List ℕ
  -- (double)n, and the operations of `double`
  pub of_int : ℤ → D
  pub add : D → D → D
  pub mul : D → D → D
  pub div : D → D → D

-- `children` counts the children that have not been waited for: an answer of `waitpid` that does not
-- ask about stopped children uses one up, and none of the calls listed here makes a new one.
pub record CountsChildren {W D : Type 0} (m : Machine W D) (children : W → ℕ) : Type 0 where
  pub reaped :
      (w : W) (pid : ℕ) (status : WaitStatus)
      → (m.waitpid any_child nohang w).0 ≡ changed pid status
      → children (m.waitpid any_child nohang w).1 < children w
  pub clock_gettime_le : (w : W) → children (m.clock_gettime w).1 ≤ children w
  pub kill_le : (pid : ℕ) (sig : Signal) (w : W) → children (m.kill pid sig w).1 ≤ children w
  pub setitimer_le : (v : Itimerval) (w : W) → children (m.setitimer v w) ≤ children w
  pub socket_le : (w : W) → children (m.socket w).1 ≤ children w
  pub connect_le : (fd : ℕ) (path : CString) (w : W) → children (m.connect fd path w).1 ≤ children w
  pub set_nonblock_le : (fd : ℕ) (w : W) → children (m.set_nonblock fd w) ≤ children w
  pub write_le : (fd : ℕ) (bytes : List ℕ) (w : W) → children (m.write fd bytes w).1 ≤ children w
  pub close_le : (fd : ℕ) (w : W) → children (m.close fd w) ≤ children w
