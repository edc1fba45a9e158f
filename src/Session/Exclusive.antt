-- ===== src/Session/Exclusive.antt =====
-- Which processes have the processor, in everything that the program can come to.
use minios_lab_edwin_jose.Base.{ℕ, ◌<◌, ◌≡◌, ◌⊎◌, Bool, false, some}
use minios_lab_edwin_jose.Machine.{Machine}
use minios_lab_edwin_jose.Platform.{Platform}
use minios_lab_edwin_jose.Scheduler.State.{System}
use minios_lab_edwin_jose.Scheduler.Exclusive.{Lull}
use minios_lab_edwin_jose.Shell.Exclusive.{NewPids}
use minios_lab_edwin_jose.Session.{commanded, ticked, reaped, elapsed, Reachable, booted, next}

-- On the way no call of `fork` gave a pid that had been given out before, and whatever happened outside the program
-- has woken none of the processes that there had been.
unfoldable pub Undisturbed :
    {W D : Type 0} {m : Machine W D} {t : Platform} (awake : W → ℕ → Bool) (fresh : W → ℕ)
    {s : System W D}
    → Reachable m t s
    → Type 0
Undisturbed awake fresh (booted w) = Unit
Undisturbed {m = m} {t = t} awake fresh (next r (commanded c s e)) =
    Undisturbed awake fresh r × NewPids m t fresh c s
Undisturbed awake fresh (next r (ticked fuel s s' e)) = Undisturbed awake fresh r
Undisturbed awake fresh (next r (reaped fuel s s' e)) = Undisturbed awake fresh r
Undisturbed awake fresh (next r (elapsed w s)) =
    Undisturbed awake fresh r × Lull awake fresh s.world w

-- Every process of the table but the current one is stopped or has ended.
abbrev pub Exclusive : {W D : Type 0} → (W → ℕ → Bool) → System W D → Type 0
Exclusive awake s =
    (i : ℕ)
    → i < s.process_count
    → (awake s.world (s.process_table i).pid ≡ false) ⊎ (s.current_running ≡ some i)
