-- ===== src/Session/Interrupted.antt =====
-- `scheduler_create_process` of src/scheduler.c with SIGCHLD inside it: `run` and `runpair` do not block that signal, so
-- its handler may run between any two steps.
use minios_lab_edwin_jose.Base.{
  Always, ℕ, ◌+◌, ◌<◌, ◌≡◌, ◌≢◌, refl, sym, ap, subst, ◌∙◌, Bool, true, false, Option, none, some,
  leb, arith, if◌then◌else◌, if-rule, Bool-cases, inl, inr,
}
use minios_lab_edwin_jose.Machine.{
  Machine, CString, WaitStatus, exited, WaitResult, interrupted, failed, not_yet, changed, child,
  blocking, is_stopped,
}
use minios_lab_edwin_jose.Fifo.{max_processes}
use minios_lab_edwin_jose.Pcb.{running}
use minios_lab_edwin_jose.Platform.{Platform, uses_ptrace}
use minios_lab_edwin_jose.Scheduler.State.{System, in_world, waitpid}
use minios_lab_edwin_jose.Scheduler.View.{states, WellFormed}
use minios_lab_edwin_jose.Scheduler.Lasting.{Lasting}
use minios_lab_edwin_jose.Scheduler.Create.{abandon, release, halt, fill_pcb, confirmed}
use minios_lab_edwin_jose.Scheduler.Create.Kept.{
  Kept, Kept-abandon, release-Kept, halt-Kept, fill_pcb-Kept, either,
}
use minios_lab_edwin_jose.Scheduler.Create.Laws.{Created, confirmed-Created}
use minios_lab_edwin_jose.Scheduler.Create.Stages.{
  Stage, entering, awaiting, filling, holding, confirming, deciding, finished, after_fork,
  after_exec, step,
}
use minios_lab_edwin_jose.Scheduler.Sigchld.{sigchld}
use minios_lab_edwin_jose.Scheduler.Sigchld.Laws.{sigchld-WellFormed}
use minios_lab_edwin_jose.Scheduler.Sigchld.Lasting.{sigchld-Lasting}
use minios_lab_edwin_jose.Shell.History.{
  Grown, Grown-refl, Grown-trans, Lasting-Grown, Created-Onward,
}

-- From a stage and a state to what can come, with the handler of SIGCHLD between the steps.
pub data Course {W D : Type 0} (m : Machine W D) (t : Platform) (st0 : Stage) (s0 : System W D)
    : Stage → System W D → Type 0 where
  here : Course m t st0 s0 st0 s0
  goes_on :
      {st : Stage} {s : System W D}
      → Course m t st0 s0 st s
      → Course m t st0 s0 (step m t st s).0 (step m t st s).1
  signalled :
      {st : Stage} {s s' : System W D} (fuel : ℕ)
      → Course m t st0 s0 st s
      → sigchld m t fuel s ≡ some s'
      → Course m t st0 s0 st s'

-- What is known of the size of the table at a stage, from `n0` at the beginning.
abbrev pub Sized : ℕ → Stage → ℕ → Type 0
Sized n0 (entering path) n = n ≡ n0
Sized n0 (awaiting path pid) n = (n ≡ n0) × (n0 < max_processes)
Sized n0 (filling path pid stale) n = (n ≡ n0) × (n0 < max_processes)
Sized n0 (holding idx pid stale) n = (idx ≡ n) × (n ≡ n0) × (n0 < max_processes)
Sized n0 (confirming idx pid stale) n = (idx ≡ n) × (n ≡ n0) × (n0 < max_processes)
Sized n0 (deciding idx pid stale r) n = (idx ≡ n) × (n ≡ n0) × (n0 < max_processes)
Sized n0 (finished none) n = n ≡ n0
Sized n0 (finished (some idx)) n = (idx ≡ n0) × (n ≡ n0 + 1)

-- The system is well formed, the old entries are the same processes and those that were TERMINATED still are,
-- and the signal mask is as it was.
abbrev pub Base : {W D : Type 0} → System W D → System W D → Type 0
Base s0 s = WellFormed s × Grown s0 s × (s.mask ≡ s0.mask)

module _ {W D : Type 0} (m : Machine W D) (t : Platform) (s0 : System W D) where
  abbrev Sound : Stage × System W D → Type 0
  Sound (st, s) = Base s0 s × Sized s0.process_count st s.process_count

  Base-Created :
      (s : System W D) (r : Option ℕ) (s' : System W D)
      → Created s r s'
      → WellFormed s'
      → Base s0 s
      → Base s0 s'
  Base-Created s r s' c h' (h, g, e) =
      let (g', e') = Created-Onward s r s' c in (h', Grown-trans s0 s s' g g', e' ∙ e)

  Base-Kept : (s s' : System W D) → Kept s s' → Base s0 s → Base s0 s'
  Base-Kept s s' k = Base-Created s none s' k k.0

  -- Nothing has been done since `s`.
  same : (s : System W D) → Base s0 s → Kept s s
  same s b = (b.0, refl, refl, (λ j miss. refl), refl)

  abandoned :
      (pid : ℕ) (s : System W D)
      → Base s0 s
      → s.process_count ≡ s0.process_count
      → Sound (finished none, abandon m t pid s)
  abandoned pid s b n =
      let k = Kept-abandon m t s pid s (same s b) in (Base-Kept s (abandon m t pid s) k b, k.1 ∙ n)

  exec-Sound :
      (path : CString) (pid : ℕ) (r : WaitResult) (s : System W D)
      → Base s0 s
      → s.process_count ≡ s0.process_count
      → s0.process_count < max_processes
      → Sound (after_exec m t path pid r s)
  unfolding after_exec
  exec-Sound path pid interrupted s b n lt = abandoned pid s b n
  exec-Sound path pid failed s b n lt = abandoned pid s b n
  exec-Sound path pid not_yet s b n lt = abandoned pid s b n
  exec-Sound path pid (changed wp status) s b n lt =
      if-rule Sound (is_stopped status) (filling path pid status, s)
        (finished none, abandon m t pid s) (λ _. (b, (n, lt))) (λ _. abandoned pid s b n)

  begun :
      (path : CString) (o : Option ℕ) (s : System W D)
      → Base s0 s
      → s.process_count ≡ s0.process_count
      → s0.process_count < max_processes
      → Sound (after_fork m t path o, s)
  unfolding after_fork
  begun path none s b n lt = (b, n)
  begun path (some pid) s b n lt =
      if-rule (λ st. Sound (st, s)) (uses_ptrace t) (awaiting path pid)
        (filling path pid (exited 0)) (λ _. (b, (n, lt))) (λ _. (b, (n, lt)))

  -- The new process is held, or it is gone.
  held-Sound :
      (idx pid : ℕ) (stale : WaitStatus) (held : Bool) (s s1 : System W D)
      → Base s0 s
      → Sized s0.process_count (holding idx pid stale) s.process_count
      → Kept s s1
      → Sound (if held then (confirming idx pid stale, s1) else (finished none, s1))
  held-Sound idx pid stale true s s1 b (i, n, lt) k =
      (Base-Kept s s1 k b, (i ∙ sym k.1, k.1 ∙ n, lt))
  held-Sound idx pid stale false s s1 b (i, n, lt) k = (Base-Kept s s1 k b, k.1 ∙ n)

  decided :
      (s : System W D) (o : Option ℕ) (s1 : System W D)
      → Base s0 s
      → s.process_count ≡ s0.process_count
      → Created s o s1
      → Sound (finished o, s1)
  decided s none s1 b n c = (Base-Created s none s1 c c.0 b, c.1 ∙ n)
  decided s (some idx) s1 b n c =
      (Base-Created s (some idx) s1 c c.0 b, (c.1 ∙ n, c.2 ∙ ap (λ x. x + 1) n))

  step-Sound : (st : Stage) (s : System W D) → Sound (st, s) → Sound (step m t st s)
  unfolding step waitpid
  step-Sound (entering path) s (b, n) = elim (Bool-cases (leb max_processes s.process_count)) [
    | inl full ↦ rw full (b, n)
    | inr space ↦ rw space (
        begun path (m.fork s.world).0 (in_world s (m.fork s.world).1) b n
          (ground (arith, n, space)))
  ]
  step-Sound (awaiting path pid) s (b, (n, lt)) =
      let (r, w) = m.waitpid (child pid) blocking s.world in
      exec-Sound path pid r (in_world s w) b n lt
  step-Sound (filling path pid stale) s (b, (n, lt)) =
      let k = (fill_pcb-Kept m t s path pid s (same s b)).0 in
      (Base-Kept s (fill_pcb m t path pid s) k b, (sym k.1, k.1 ∙ n, lt))
  step-Sound (holding idx pid stale) s (b, z) =
      let (held, s1) = (if uses_ptrace t then release m t idx pid s else halt m t pid s) in
      held-Sound idx pid stale held s s1 b z (
        either m t s (uses_ptrace t) (release m t idx pid s) (halt m t pid s)
          (release-Kept m t s idx pid s z.0 (λ r. outside r z.0) (same s b))
          (halt-Kept m t s pid s (same s b)))
    where
      outside : states s idx ≡ running → idx ≢ s.process_count
      outside r e = omega (arith, e, (b.0.1.current idx (b.0.1.only idx r)).0)
  step-Sound (confirming idx pid stale) s x = x
  step-Sound (deciding idx pid stale r) s (b, (i, n, lt)) =
      let (o, s1) = confirmed m t idx pid stale r s in
      decided s o s1 b n
        (confirmed-Created m t s (omega (arith, n, lt)) idx pid stale r s i (same s b))
  step-Sound (finished o) s x = x

  signalled-Sound :
      (fuel : ℕ) (st : Stage) (s s' : System W D)
      → sigchld m t fuel s ≡ some s'
      → Sound (st, s)
      → Sound (st, s')
  signalled-Sound fuel st s s' e ((h, g, mask), z) =
      let h' = subst (Always WellFormed) e (sigchld-WellFormed m t fuel s h) in
      let (kept, mask') =
        subst (Always (λ (x : System W D). Lasting s x × (x.mask ≡ s.mask))) e
          (sigchld-Lasting m t fuel s) in
      (
        (h', Grown-trans s0 s s' g (Lasting-Grown s s' kept), mask' ∙ mask),
        subst (Sized s0.process_count st) (sym kept.0) z,
      )

-- With any number of runs of the SIGCHLD handler between the steps of `scheduler_create_process`, the system stays
-- well formed, the signal mask is as it was, and the old entries of the table keep their pids and names and stay
-- TERMINATED if they were; until the function has finished the table is as long as it was. If it returns an
-- index, that is the old length, and the table is longer by one; if it returns -1, the table is not.
pub Course-Sized :
    {W D : Type 0} (m : Machine W D) (t : Platform) (path : CString) (s0 : System W D) (st : Stage)
    (s : System W D)
    → WellFormed s0
    → Course m t (entering path) s0 st s
    → Base s0 s × Sized s0.process_count st s.process_count
Course-Sized m t path s0 st s h here = ((h, Grown-refl s0, refl), refl)
Course-Sized m t path s0 st s h (goes_on {st = st1} {s = s1} c) =
    step-Sound m t s0 st1 s1 (Course-Sized m t path s0 st1 s1 h c)
Course-Sized m t path s0 st s h (signalled {st = st1} {s = s1} {s' = s2} fuel c e) =
    signalled-Sound m t s0 fuel st1 s1 s2 e (Course-Sized m t path s0 st1 s1 h c)
