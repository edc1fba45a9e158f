-- ===== src/Timer.antt =====
-- src/timer.c: the interval timer that raises SIGALRM. `tick_installed` says whether the handler of
-- SIGALRM is the tick of the scheduler, the one handler that `timer_init` is called with.
pub mod Laws
use minios_lab_edwin_jose.Base.{ℕ, Bool, true, false}
use minios_lab_edwin_jose.Base.Int.{ℤ, pos, quot, rem, times}
use minios_lab_edwin_jose.Machine.{Machine, Itimerval}

pub record Timer : Type 0 where
  pub current_slice_ms : ℤ
  pub tick_installed : Bool

unfoldable pub init : ℤ → Timer → Timer
init slice_ms t = record t { current_slice_ms = slice_ms; tick_installed = true }

unfoldable pub set_slice : ℤ → Timer → Timer
set_slice slice_ms t = record t { current_slice_ms = slice_ms }

pub get_slice : Timer → ℤ
get_slice t = t.current_slice_ms

-- The structure that `timer_start` passes to `setitimer`.
pub interval : Timer → Itimerval
interval t = record {
  value_sec = quot t.current_slice_ms 1000;
  value_usec = times (rem t.current_slice_ms 1000) 1000;
  interval_sec = quot t.current_slice_ms 1000;
  interval_usec = times (rem t.current_slice_ms 1000) 1000;
}

abbrev pub disarmed : Itimerval
disarmed = record {
  value_sec = pos 0;
  value_usec = pos 0;
  interval_sec = pos 0;
  interval_usec = pos 0;
}

module _ {W D : Type 0} (m : Machine W D) where
  unfoldable pub start : Timer → W → W
  unfolding interval
  start t w = m.setitimer (interval t) w

  unfoldable pub stop : W → W
  stop w = m.setitimer disarmed w
