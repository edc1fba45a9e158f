-- ===== src/Session.antt =====
-- The life of the program: src/main.c starts it, and then the commands of src/shell.c and the handlers
-- of src/scheduler.c take turns, in any order.
pub mod History
pub mod Exclusive
pub mod Interrupted
use minios_lab_edwin_jose.Base.{Always, subst, ℕ, ◌≡◌, true, some}
use minios_lab_edwin_jose.Machine.{Machine}
use minios_lab_edwin_jose.Platform.{Platform}
use minios_lab_edwin_jose.Scheduler.State.{System, in_world}
use minios_lab_edwin_jose.Scheduler.View.{WellFormed}
use minios_lab_edwin_jose.Scheduler.Tick.{tick}
use minios_lab_edwin_jose.Scheduler.Tick.Laws.{tick-WellFormed}
use minios_lab_edwin_jose.Scheduler.Sigchld.{sigchld}
use minios_lab_edwin_jose.Scheduler.Sigchld.Laws.{sigchld-WellFormed}
use minios_lab_edwin_jose.CommandLine.{Command}
use minios_lab_edwin_jose.Shell.{perform}
use minios_lab_edwin_jose.Shell.Laws.{perform-WellFormed}
use minios_lab_edwin_jose.Main.{loaded, boot}
use minios_lab_edwin_jose.Main.Laws.{boot-WellFormed}

-- One event: a command after which the shell goes on, a signal whose handler returns, or anything that
-- happens outside the program.
pub data Event {W D : Type 0} (m : Machine W D) (t : Platform)
    : System W D → System W D → Type 0 where
  commanded :
      (c : Command) (s : System W D) → (perform m t c s).0 ≡ true → Event m t s (perform m t c s).1
  ticked : (fuel : ℕ) (s s' : System W D) → tick m t fuel s ≡ some s' → Event m t s s'
  reaped : (fuel : ℕ) (s s' : System W D) → sigchld m t fuel s ≡ some s' → Event m t s s'
  elapsed : (w : W) (s : System W D) → Event m t s (in_world s w)

-- What the program can come to from its start.
pub data Reachable {W D : Type 0} (m : Machine W D) (t : Platform) : System W D → Type 0 where
  booted : (w : W) → Reachable m t (boot m (loaded m w))
  next : {s s' : System W D} → Reachable m t s → Event m t s s' → Reachable m t s'

module _ {W D : Type 0} (m : Machine W D) (t : Platform) where
  Event-WellFormed : {s s' : System W D} → Event m t s s' → WellFormed s → WellFormed s'
  Event-WellFormed (commanded c s e) h = perform-WellFormed m t c s h e
  Event-WellFormed (ticked fuel s s' e) h =
      subst (Always WellFormed) e (tick-WellFormed m t fuel s h)
  Event-WellFormed (reaped fuel s s' e) h =
      subst (Always WellFormed) e (sigchld-WellFormed m t fuel s h)
  Event-WellFormed (elapsed w s) h = h

  -- However commands, both signals and changes outside the program follow one another, from the start
  -- the system is well formed.
  pub Reachable-WellFormed : (s : System W D) → Reachable m t s → WellFormed s
  Reachable-WellFormed s (booted w) = boot-WellFormed m w
  Reachable-WellFormed s (next r e) = Event-WellFormed e (Reachable-WellFormed _ r)
