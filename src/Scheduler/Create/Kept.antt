-- ===== src/Scheduler/Create/Kept.antt =====
-- The steps of the creation of a process that leave the table as long as it was, and the queue.
use minios_lab_edwin_jose.Base.{
  ℕ, ◌≡◌, ◌≢◌, refl, sym, ap, ◌∙◌, Bool, true, false, if◌then◌else◌, eq-true, eq-false,
}
use minios_lab_edwin_jose.Machine.{Machine, CString}
use minios_lab_edwin_jose.Pcb
use minios_lab_edwin_jose.Pcb.{Pcb, ProcState, new, ready, running}
use minios_lab_edwin_jose.Pcb.Laws.{init-fresh}
use minios_lab_edwin_jose.Platform
use minios_lab_edwin_jose.Platform.{Platform, uses_ptrace}
use minios_lab_edwin_jose.RoundRobin.{fill}
use minios_lab_edwin_jose.Scheduler.State.{System, put, in_world, kill, waitpid}
use minios_lab_edwin_jose.Scheduler.View.{states, WellFormed, states-put, IsSane-cast}
use minios_lab_edwin_jose.Scheduler.Create.{abandon, sample, release, halt, fill_pcb}

-- Nothing has changed but the entry behind the table, which no queue names, the connection and the outside world.
abbrev pub Kept : {W D : Type 0} → System W D → System W D → Type 0
Kept s0 s =
    WellFormed s
    × (s.process_count ≡ s0.process_count)
    × (s.rq ≡ s0.rq)
    × ((j : ℕ) → j ≢ s0.process_count → s.process_table j ≡ s0.process_table j)
    × (s.mask ≡ s0.mask)

module _ {W D : Type 0} (m : Machine W D) (t : Platform) (s0 : System W D) where
  pub Kept-abandon : (pid : ℕ) (s : System W D) → Kept s0 s → Kept s0 (abandon m t pid s)
  unfolding abandon kill waitpid
  Kept-abandon pid s k = k

  -- The entry behind the table is written, with a state that is not RUNNING.
  Kept-put :
      (idx : ℕ) (p : Pcb D) (s : System W D)
      → idx ≡ s.process_count
      → p.state ≢ running
      → Kept s0 s
      → Kept s0 (put idx p s)
  Kept-put idx p s e ne k = (
    IsSane-cast (states-put idx p s) refl refl (k.0.0, rw e (fill p.state ne k.0.1)),
    k.1,
    k.2,
    λ j miss. rw (eq-false idx j (λ h. miss (sym h ∙ (e ∙ k.1)))) (k.3 j miss),
    k.4,
  )

  -- The registers are written into the new entry only.
  sample-Kept :
      (idx pid : ℕ) (s : System W D)
      → idx ≡ s.process_count
      → states s idx ≢ running
      → Kept s0 s
      → Kept s0 (sample m t idx pid s)
  unfolding sample
  sample-Kept idx pid s e ne k = Kept-put idx _ s e ne k

  pub either :
      (b : Bool) (x y : Bool × System W D)
      → Kept s0 x.1
      → Kept s0 y.1
      → Kept s0 (if b then x else y).1
  either true x y hx hy = hx
  either false x y hx hy = hy

  pub release-Kept :
      (idx pid : ℕ) (s : System W D)
      → idx ≡ s.process_count
      → states s idx ≢ running
      → Kept s0 s
      → Kept s0 (release m t idx pid s).1
  unfolding release
  release-Kept idx pid s e ne k =
      either (Platform.stop_process m t pid s1.world).0
        (if (Platform.detach m t pid s2.world).0 then (true, s3) else (false, abandon m t pid s3))
        (false, abandon m t pid s2)
        (either (Platform.detach m t pid s2.world).0 (true, s3) (false, abandon m t pid s3) kept
          (Kept-abandon pid s3 kept))
        (Kept-abandon pid s2 kept)
    where
      s1 : System W D
      s1 = sample m t idx pid s

      s2 : System W D
      s2 = in_world s1 (Platform.stop_process m t pid s1.world).1

      s3 : System W D
      s3 = in_world s2 (Platform.detach m t pid s2.world).1

      kept : Kept s0 s1
      kept = sample-Kept idx pid s e ne k

  pub halt-Kept : (pid : ℕ) (s : System W D) → Kept s0 s → Kept s0 (halt m t pid s).1
  unfolding halt
  halt-Kept pid s k =
      let s1 = in_world s (Platform.stop_process m t pid s.world).1 in
      either (Platform.stop_process m t pid s.world).0 (true, s1) (false, abandon m t pid s1) k
        (Kept-abandon pid s1 k)

  -- The new PCB is NEW and stands at the index `process_count`.
  pub fill_pcb-Kept :
      (path : CString) (pid : ℕ) (s : System W D)
      → Kept s0 s
      → Kept s0 (fill_pcb m t path pid s) × (states (fill_pcb m t path pid s) s.process_count ≡ new)
  unfolding fill_pcb
  fill_pcb-Kept path pid s k =
      let w = (m.strdup path s.world).1 in
      let name = (if (m.strdup path s.world).0 then m.basename path else path) in
      let p = (Pcb.init m pid name w).0 in
      let fresh = (init-fresh m pid name w).1 in
      (
        Kept-put s.process_count p s refl (λ e. cc fresh) k,
        ap (λ f. f s.process_count) (states-put s.process_count p s)
            ∙ rw (eq-true s.process_count s.process_count refl) fresh,
      )
