-- ===== src/Platform/Darwin.antt =====
-- src/platform/platform_darwin.c: processes are stopped and resumed by signals, and cannot be read.
use minios_lab_edwin_jose.Base.{ℕ, Bool, true, false}
use minios_lab_edwin_jose.Machine.{Machine, sigstop, sigcont}
use minios_lab_edwin_jose.Platform.Context.{CpuContext, zero_context}

pub uses_ptrace : Bool
uses_ptrace = false

pub registers_available : Bool
registers_available = false

module _ {W D : Type 0} (m : Machine W D) where
  -- Nothing is done.
  pub trace_child : W → Bool × W
  trace_child w = (true, w)

  unfoldable pub stop_process : ℕ → W → Bool × W
  stop_process pid w = m.kill pid sigstop w

  unfoldable pub resume_process : ℕ → W → Bool × W
  resume_process pid w = m.kill pid sigcont w

  -- Nothing is done.
  unfoldable pub detach : ℕ → W → Bool × W
  detach pid w = (true, w)

  -- The context is cleared; there are no registers.
  unfoldable pub get_registers : ℕ → CpuContext → W → Bool × CpuContext × W
  get_registers pid ctx w = (false, zero_context, w)

  -- Not available.
  pub sample_registers : ℕ → CpuContext → W → Bool × CpuContext × W
  sample_registers pid ctx w = (false, ctx, w)
