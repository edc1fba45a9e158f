-- ===== src/Timer/Laws.antt =====
-- The interval that `timer_start` asks the kernel for.
use minios_lab_edwin_jose.Base.{ℕ, ◌+◌, ◌*◌, ◌/◌, ◌%◌, ◌≤◌, ◌<◌, ◌≡◌, refl, arith}
use minios_lab_edwin_jose.Base.Int.{pos}
use minios_lab_edwin_jose.Machine.{Machine, CountsChildren}
use minios_lab_edwin_jose.Timer.{Timer, interval, start, stop, disarmed}

-- For a slice of `ms` milliseconds, `ms` positive, the first expiry and the period are the same: `sec`
-- seconds and `usec` microseconds, which make up exactly `ms` milliseconds, with `usec` below a
-- million, and not both 0, which would disarm the timer.
pub interval-exact :
    (t : Timer) (ms : ℕ)
    → t.current_slice_ms ≡ pos ms
    → 0 < ms
    → (sec : ℕ) × (usec : ℕ) × (interval t ≡ record {
      value_sec = pos sec;
      value_usec = pos usec;
      interval_sec = pos sec;
      interval_usec = pos usec;
    })
      × (sec * 1_000_000 + usec ≡ ms * 1000)
      × (usec < 1_000_000)
      × (0 < sec + usec)
unfolding interval
interval-exact t ms e lt =
    (ms / 1000, ms % 1000 * 1000, rw e refl, omega arith, omega arith, omega arith)

pub stop-le :
    {W D : Type 0} (m : Machine W D) (children : W → ℕ)
    → CountsChildren m children
    → (w : W) → children (stop m w) ≤ children w
unfolding stop
stop-le m children law w = law.setitimer_le disarmed w

pub start-setitimer :
    {W D : Type 0} (m : Machine W D) (t : Timer) (w : W) → start m t w ≡ m.setitimer (interval t) w
unfolding start
start-setitimer m t w = refl
