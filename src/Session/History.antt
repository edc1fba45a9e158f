-- ===== src/Session/History.antt =====
-- What the program never takes back in its life, and the signal mask between its events.
use minios_lab_edwin_jose.Base.{◌≡◌, refl, ap, ◌∙◌, subst, false, Always}
use minios_lab_edwin_jose.Machine.{Machine}
use minios_lab_edwin_jose.Platform.{Platform}
use minios_lab_edwin_jose.Scheduler.State.{System, SigMask}
use minios_lab_edwin_jose.Scheduler.View.{WellFormed}
use minios_lab_edwin_jose.Scheduler.Tick.Laws.{tick-mask}
use minios_lab_edwin_jose.Scheduler.Tick.Lasting.{tick-Lasting}
use minios_lab_edwin_jose.Scheduler.Lasting.{Lasting}
use minios_lab_edwin_jose.Scheduler.Sigchld.Lasting.{sigchld-Lasting}
use minios_lab_edwin_jose.Shell.History.{
  Grown, Grown-refl, Grown-trans, Lasting-Grown, perform-Grown,
}
use minios_lab_edwin_jose.Main.Laws.{boot-mask}
use minios_lab_edwin_jose.Session.{
  Event, commanded, ticked, reaped, elapsed, Reachable, booted, next, Reachable-WellFormed,
}

-- Neither signal is blocked.
abbrev pub open_mask : SigMask
open_mask = record { alrm_blocked = false; chld_blocked = false }

-- What the program can come to from `s0`.
pub data Later {W D : Type 0} (m : Machine W D) (t : Platform) (s0 : System W D)
    : System W D → Type 0 where
  now : Later m t s0 s0
  after : {s s' : System W D} → Later m t s0 s → Event m t s s' → Later m t s0 s'

module _ {W D : Type 0} (m : Machine W D) (t : Platform) where
  abbrev Onward : System W D → System W D → Type 0
  Onward s s' = Grown s s' × (s'.mask ≡ s.mask)

  Event-Onward :
      {s s' : System W D} → Event m t s s' → WellFormed s → s.mask ≡ open_mask → Onward s s'
  Event-Onward (commanded c s e) h k = perform-Grown m t c s h (ap (λ x. x.alrm_blocked) k) e
  Event-Onward (ticked fuel s s' e) h k = (
    Lasting-Grown s s' (subst (Always (Lasting s)) e (tick-Lasting m t fuel s h)),
    subst (Always (λ (x : System W D). x.mask ≡ s.mask)) e (tick-mask m t fuel s),
  )
  Event-Onward (reaped fuel s s' e) h k =
      let (kept, mask) =
        subst (Always (λ (x : System W D). Lasting s x × (x.mask ≡ s.mask))) e
          (sigchld-Lasting m t fuel s) in
      (Lasting-Grown s s' kept, mask)
  Event-Onward (elapsed w s) h k = (Grown-refl s, refl)

  -- Between the events of the program's life neither SIGALRM nor SIGCHLD is blocked.
  pub Reachable-mask : (s : System W D) → Reachable m t s → s.mask ≡ open_mask
  Reachable-mask s (booted w) = boot-mask m w
  Reachable-mask s (next {s = s0} {s' = s1} r e) =
      (Event-Onward e (Reachable-WellFormed m t s0 r) (Reachable-mask s0 r)).1 ∙ Reachable-mask s0 r

  Later-Reachable : {s0 s : System W D} → Reachable m t s0 → Later m t s0 s → Reachable m t s
  Later-Reachable r now = r
  Later-Reachable r (after l e) = next (Later-Reachable r l) e

  -- From a state that the program can come to, whatever follows: the table never loses an entry, an entry
  -- keeps its pid and its name, and a process that is TERMINATED stays so.
  pub Later-Grown : (s0 s : System W D) → Reachable m t s0 → Later m t s0 s → Grown s0 s
  Later-Grown s0 s r now = Grown-refl s0
  Later-Grown s0 s r (after {s = s1} {s' = s2} l e) =
      let r1 = Later-Reachable r l in
      Grown-trans s0 s1 s2 (Later-Grown s0 s1 r l)
        (Event-Onward e (Reachable-WellFormed m t s1 r1) (Reachable-mask s1 r1)).0
