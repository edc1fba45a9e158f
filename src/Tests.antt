-- ===== src/Tests.antt =====
-- The theorems at concrete inputs.
mod Data
pub mod Scheduler
pub mod Shell
pub mod Monitor
pub mod Programs
pub mod Kernel
pub mod Loops
pub mod Creation
