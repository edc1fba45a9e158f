-- ===== src/Pcb.antt =====
-- src/pcb.h and src/pcb.c: the process control block. A counter of the C type `int` is a natural
-- number. What the functions that print write is in Console/Table.
pub mod Laws
use minios_lab_edwin_jose.Base.{
  ℕ, zero, suc, ◌+◌, ◌-◌, Bool, true, false, List, [], ◌∷◌, ◌++◌, ◌==◌, if◌then◌else◌, take, length,
}
use minios_lab_edwin_jose.Base.Int.{pos}
use minios_lab_edwin_jose.Machine.{Machine, Timespec, CString}
use minios_lab_edwin_jose.Platform.Context.{CpuContext, zero_context}

-- MAX_NAME_LEN
abbrev pub max_name_len : ℕ
max_name_len = 64

pub data ProcState : Type 0 where
  new ready running blocked terminated : ProcState

abbrev pub is_ready : ProcState → Bool
is_ready ready = true
is_ready _ = false

abbrev pub is_terminated : ProcState → Bool
is_terminated terminated = true
is_terminated _ = false

abbrev pub is_running : ProcState → Bool
is_running running = true
is_running _ = false

-- `pcb_t`; `name` is the whole array of 64 bytes.
pub record Pcb (D : Type 0) : Type 0 where
  pub pid : ℕ
  pub name : List ℕ
  pub state : ProcState
  pub registers : CpuContext
  pub regs_valid : Bool
  pub created_at : Timespec
  pub last_started : Timespec
  pub cpu_time_ms : D
  pub wait_time_ms : D
  pub context_switches : ℕ

abbrev pub zeros : ℕ → List ℕ
zeros zero = []
zeros (suc n) = 0 ∷ zeros n

-- `strncpy(dst, src, n)` into zeroed memory: at most `n` bytes, padded with zeros to `n`.
pub strncpy : ℕ → CString → List ℕ
strncpy zero src = []
strncpy (suc n) [] = 0 ∷ strncpy n []
strncpy (suc n) (c ∷ src) = c ∷ strncpy n src

-- The text that a zero-terminated array holds.
pub c_string : List ℕ → CString
c_string [] = []
c_string (c ∷ cs) = let rest = c_string cs in if c == 0 then [] else c ∷ rest

abbrev zero_time : Timespec
zero_time = record { tv_sec = pos 0; tv_nsec = pos 0 }

module _ {W D : Type 0} (m : Machine W D) where
  -- The entries of `process_table` before any process is created: static storage is zeroed.
  pub blank : Pcb D
  blank = record {
    pid = 0;
    name = zeros max_name_len;
    state = new;
    registers = zero_context;
    regs_valid = false;
    created_at = zero_time;
    last_started = zero_time;
    cpu_time_ms = m.of_int (pos 0);
    wait_time_ms = m.of_int (pos 0);
    context_switches = 0;
  }

  -- `memset` clears the whole block, so nothing of the old one is kept.
  pub init : ℕ → CString → W → Pcb D × W
  unfolding blank strncpy
  init pid name w =
      let (now, w1) = m.clock_gettime w in
      (
        record blank {
          pid = pid;
          name = strncpy (max_name_len - 1) name ++ 0 ∷ [];
          state = new;
          regs_valid = false;
          cpu_time_ms = m.of_int (pos 0);
          wait_time_ms = m.of_int (pos 0);
          context_switches = 0;
          created_at = now;
        },
        w1,
      )
