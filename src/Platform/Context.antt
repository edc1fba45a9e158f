-- ===== src/Platform/Context.antt =====
-- The registers of a process as src/platform/platform.h stores them.
use minios_lab_edwin_jose.Base.{ℕ, List, [], ◌∷◌}

-- `cpu_context_t`; `general_regs` has NUM_GENERAL_REGS entries.
pub record CpuContext : Type 0 where
  pub program_counter : ℕ
  pub stack_pointer : ℕ
  pub general_regs : List ℕ

-- The context that `memset` leaves.
abbrev pub zero_context : CpuContext
zero_context = record {
  program_counter = 0;
  stack_pointer = 0;
  general_regs = 0 ∷ 0 ∷ 0 ∷ 0 ∷ 0 ∷ 0 ∷ 0 ∷ 0 ∷ 0 ∷ 0 ∷ 0 ∷ 0 ∷ 0 ∷ 0 ∷ 0 ∷ 0 ∷ [];
}
