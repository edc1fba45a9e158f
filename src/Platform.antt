-- ===== src/Platform.antt =====
-- src/platform/platform.h: the interface that the Makefile links platform_linux.c or platform_darwin.c behind, so
-- each function chooses by the platform.
pub mod Context
pub mod Linux
pub mod Darwin
pub mod Laws
use minios_lab_edwin_jose.Base.{ℕ, Bool}
use minios_lab_edwin_jose.Machine.{Machine}
use minios_lab_edwin_jose.Platform.Context.{CpuContext}
use minios_lab_edwin_jose.Platform.Linux
use minios_lab_edwin_jose.Platform.Darwin

pub data Platform : Type 0 where
  linux darwin : Platform

pub uses_ptrace : Platform → Bool
uses_ptrace linux = Linux.uses_ptrace
uses_ptrace darwin = Darwin.uses_ptrace

pub registers_available : Platform → Bool
registers_available linux = Linux.registers_available
registers_available darwin = Darwin.registers_available

module _ {W D : Type 0} (m : Machine W D) where
  pub trace_child : Platform → W → Bool × W
  trace_child linux = Linux.trace_child m
  trace_child darwin = Darwin.trace_child m

  pub stop_process : Platform → ℕ → W → Bool × W
  stop_process linux = Linux.stop_process m
  stop_process darwin = Darwin.stop_process m

  pub resume_process : Platform → ℕ → W → Bool × W
  resume_process linux = Linux.resume_process m
  resume_process darwin = Darwin.resume_process m

  pub detach : Platform → ℕ → W → Bool × W
  detach linux = Linux.detach m
  detach darwin = Darwin.detach m

  -- The status beside what `*ctx` holds afterwards.
  pub get_registers : Platform → ℕ → CpuContext → W → Bool × CpuContext × W
  get_registers linux = Linux.get_registers m
  get_registers darwin = Darwin.get_registers m

  pub sample_registers : Platform → ℕ → CpuContext → W → Bool × CpuContext × W
  sample_registers linux = Linux.sample_registers m
  sample_registers darwin = Darwin.sample_registers m
