-- ===== src/Platform/Linux.antt =====
-- src/platform/platform_linux.c: processes are stopped and resumed by signals, and read with `ptrace`.
use minios_lab_edwin_jose.Base.{ℕ, Bool, true, false, none, some, [], ◌∷◌, if◌then◌else◌}
use minios_lab_edwin_jose.Machine.{
  Machine, sigstop, sigcont, UserRegs, interrupted, failed, child, untraced,
}
use minios_lab_edwin_jose.Platform.Context.{CpuContext}

pub uses_ptrace : Bool
uses_ptrace = true

pub registers_available : Bool
registers_available = true

-- What `platform_get_registers` copies out of the kernel's structure.
pub context_of : UserRegs → CpuContext
context_of r = record {
  program_counter = r.rip;
  stack_pointer = r.rsp;
  general_regs =
      r.rax ∷ r.rbx ∷ r.rcx ∷ r.rdx ∷ r.rsi ∷ r.rdi ∷ r.rbp ∷ r.r8 ∷ r.r9 ∷ r.r10 ∷ r.r11 ∷ r.r12
      ∷ r.r13 ∷ r.r14 ∷ r.r15 ∷ r.orig_rax ∷ [];
}

module _ {W D : Type 0} (m : Machine W D) where
  pub trace_child : W → Bool × W
  trace_child w = m.ptrace_traceme w

  unfoldable pub stop_process : ℕ → W → Bool × W
  stop_process pid w = m.kill pid sigstop w

  unfoldable pub resume_process : ℕ → W → Bool × W
  resume_process pid w = m.kill pid sigcont w

  unfoldable pub detach : ℕ → W → Bool × W
  detach pid w = m.ptrace_detach pid 0 w

  -- The status beside what `*ctx` holds afterwards, which is the same on failure.
  unfoldable pub get_registers : ℕ → CpuContext → W → Bool × CpuContext × W
  get_registers pid ctx w =
      let (r, w1) = m.ptrace_getregs pid w in
      elim r [ none ↦ (false, ctx, w1) | some regs ↦ (true, context_of regs, w1) ]

  -- What follows a successful attach. SIGSTOP is signal 19.
  sample_attached : ℕ → CpuContext → W → Bool × CpuContext × W
  sample_attached pid ctx w =
      let (r, w1) = m.waitpid (child pid) untraced w in
      let (got, ctx', w2) = get_registers pid ctx w1 in
      elim r [
        | interrupted ↦ (false, ctx, (m.ptrace_detach pid 0 w1).1)
        | failed ↦ (false, ctx, (m.ptrace_detach pid 0 w1).1)
        | _ ↦ (got, ctx', (m.ptrace_detach pid 19 w2).1)
      ]

  pub sample_registers : ℕ → CpuContext → W → Bool × CpuContext × W
  sample_registers pid ctx w =
      let (attached, w1) = m.ptrace_attach pid w in
      if attached then sample_attached pid ctx w1 else (false, ctx, w1)
