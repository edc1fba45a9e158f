-- ===== src/Platform/Laws.antt =====
-- Both platforms stop and resume a process by a signal; what the other functions do to the outside world.
use minios_lab_edwin_jose.Base.{ℕ, ◌≡◌, refl, Bool, true, false, Option, none, some}
use minios_lab_edwin_jose.Machine.{Machine, sigstop, sigcont, UserRegs}
use minios_lab_edwin_jose.Platform.Context.{CpuContext}
use minios_lab_edwin_jose.Platform.Linux
use minios_lab_edwin_jose.Platform.Linux.{context_of}
use minios_lab_edwin_jose.Platform.Darwin
use minios_lab_edwin_jose.Platform.{
  Platform, linux, darwin, stop_process, resume_process, detach, get_registers,
}

module _ {W D : Type 0} (m : Machine W D) where
  pub stop_process-kill :
      (t : Platform) (pid : ℕ) (w : W) → stop_process m t pid w ≡ m.kill pid sigstop w
  unfolding stop_process Linux.stop_process Darwin.stop_process
  stop_process-kill linux pid w = refl
  stop_process-kill darwin pid w = refl

  pub resume_process-kill :
      (t : Platform) (pid : ℕ) (w : W) → resume_process m t pid w ≡ m.kill pid sigcont w
  unfolding resume_process Linux.resume_process Darwin.resume_process
  resume_process-kill linux pid w = refl
  resume_process-kill darwin pid w = refl

  -- What holds before and after the one call of the kernel holds after the function.
  pub detach-world :
      (t : Platform) (pid : ℕ) (P : W → Type 0) (w : W)
      → P w
      → P (m.ptrace_detach pid 0 w).1
      → P (detach m t pid w).1
  unfolding detach Linux.detach Darwin.detach
  detach-world linux pid P w before after = after
  detach-world darwin pid P w before after = before

  pub get_registers-world :
      (t : Platform) (pid : ℕ) (ctx : CpuContext) (P : W → Type 0) (w : W)
      → P w
      → P (m.ptrace_getregs pid w).1
      → P (get_registers m t pid ctx w).2
  unfolding get_registers Linux.get_registers Darwin.get_registers
  get_registers-world linux pid ctx P w before after = go (m.ptrace_getregs pid w).0
    where
      go :
          (o : Option UserRegs)
          → P
              (elim o as (λ _. Bool × CpuContext × W) [
                | none ↦ (false, ctx, (m.ptrace_getregs pid w).1)
                | some regs ↦ (true, context_of regs, (m.ptrace_getregs pid w).1)
              ]).2
      go none = after
      go (some regs) = after
  get_registers-world darwin pid ctx P w before after = before
