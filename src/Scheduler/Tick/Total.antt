-- ===== src/Scheduler/Tick/Total.antt =====
-- The handler of SIGALRM returns: its loop on EINTR ends.
use minios_lab_edwin_jose.Base.{
  ℕ, zero, suc, ◌<◌, ◌≡◌, refl, ◌∙◌, Option, none, some, arith, inl, inr, Bool-cases,
}
use minios_lab_edwin_jose.Machine.{Machine, WaitResult, interrupted, child, untraced}
use minios_lab_edwin_jose.Platform
use minios_lab_edwin_jose.Platform.{Platform}
use minios_lab_edwin_jose.Scheduler.State.{
  System, SigMask, in_world, waitpid, block_chld, restore_mask,
}
use minios_lab_edwin_jose.Scheduler.Tick.{wait_stopped, after_wait, preempt, enter, tick}
use minios_lab_edwin_jose.Scheduler.Tick.Laws.{
  interrupted-cases, wait_stopped-again, wait_stopped-done,
}

-- `calm` bounds how often a wait can still be interrupted: each interruption lowers it.
abbrev pub Settles : {W D : Type 0} → Machine W D → (W → ℕ) → Type 0
Settles {W} m calm =
    (pid : ℕ) (w : W)
    → (m.waitpid (child pid) untraced w).0 ≡ interrupted
    → calm (m.waitpid (child pid) untraced w).1 < calm w

module _ {W D : Type 0} (m : Machine W D) (calm : W → ℕ) (settles : Settles m calm) where
  wait_stopped-total :
      (fuel pid : ℕ) (s : System W D)
      → calm s.world < fuel
      → (p : WaitResult × System W D) × (wait_stopped m fuel pid s ≡ some p)
  unfolding waitpid
  wait_stopped-total zero pid s lt = absurd (omega arith)
  wait_stopped-total (suc fuel) pid s lt =
      elim (interrupted-cases (m.waitpid (child pid) untraced s.world).0) [
        | inl e ↦
            let again =
              wait_stopped-total fuel pid (in_world s (m.waitpid (child pid) untraced s.world).1)
                (omega (arith, settles pid s.world e)) in
            (again.0, wait_stopped-again m fuel pid s e ∙ again.1)
        | inr ne ↦ (waitpid m (child pid) untraced s, wait_stopped-done m fuel pid s ne)
      ]

module _ {W D : Type 0} (m : Machine W D) (t : Platform) (calm : W → ℕ)
    (settles : Settles m calm) where
  preempt-total :
      (fuel prev : ℕ) (old : SigMask) (s : System W D)
      → calm (Platform.stop_process m t (s.process_table prev).pid s.world).1 < fuel
      → (s' : System W D) × (preempt m t fuel prev old s ≡ some s')
  unfolding preempt
  preempt-total fuel prev old s lt =
      let (p, e) =
        wait_stopped-total m calm settles fuel (s.process_table prev).pid
          (in_world s (Platform.stop_process m t (s.process_table prev).pid s.world).1) lt in
      (after_wait m t prev old p.0 p.1, ground (arith, e))

  enter-total :
      (fuel : ℕ) (cur : Option ℕ) (old : SigMask) (s : System W D)
      → ((pid : ℕ) → calm (Platform.stop_process m t pid s.world).1 < fuel)
      → (s' : System W D) × (enter m t fuel cur old s ≡ some s')
  unfolding enter
  enter-total fuel none old s lt = (restore_mask old s, refl)
  enter-total fuel (some prev) old s lt = elim (Bool-cases s.scheduler_active) [
    | inl a ↦
        let (s', e) = preempt-total fuel prev old s (lt (s.process_table prev).pid) in
        (s', ground (arith, e, a))
    | inr a ↦ (restore_mask old s, ground (arith, a))
  ]

  -- With more fuel than the wait can still be interrupted once the stop signal is sent, the handler
  -- returns a state.
  pub tick-total :
      (fuel : ℕ) (s : System W D)
      → ((pid : ℕ) → calm (Platform.stop_process m t pid s.world).1 < fuel)
      → (s' : System W D) × (tick m t fuel s ≡ some s')
  unfolding tick
  tick-total fuel s lt = enter-total fuel s.current_running s.mask (block_chld s) lt
