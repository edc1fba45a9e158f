-- ===== src/Scheduler/Tick/Forward.antt =====
-- No process waits in vain: what a tick does to the place of those in the queue, whatever the kernel answers.
use minios_lab_edwin_jose.Base.{
  Always, ℕ, ◌<◌, ◌≡◌, sym, ap, subst, ◌∙◌, true, some, inl, inr, if-rule, arith, contains,
  Distinct-snoc, is_some,
}
use minios_lab_edwin_jose.Machine.{Machine, WaitResult}
use minios_lab_edwin_jose.Platform.{Platform}
use minios_lab_edwin_jose.RoundRobin.{IsSane, current-Absent}
use minios_lab_edwin_jose.RoundRobin.Order.{ahead, ahead-snoc, Dispatches-forward}
use minios_lab_edwin_jose.ReadyQueue.Contents.{contents}
use minios_lab_edwin_jose.Scheduler.State.{System, SigMask, in_world, block_chld, restore_mask}
use minios_lab_edwin_jose.Scheduler.View.{states, WellFormed}
use minios_lab_edwin_jose.Scheduler.Tick.{after_wait, preempt, enter, tick}
use minios_lab_edwin_jose.Scheduler.Tick.Laws.{preempt-rule}
use minios_lab_edwin_jose.Scheduler.Tick.Policy.{after_wait-Waited}
use minios_lab_edwin_jose.Scheduler.Lasting.{Lasting-refl}

-- Every process that waits in both has fewer before it in the second.
abbrev pub Forward : {W D : Type 0} → System W D → System W D → Type 0
Forward s s' =
    (j : ℕ)
    → contains j (contents s.rq) ≡ true
    → contains j (contents s'.rq) ≡ true
    → ahead j (contents s'.rq) < ahead j (contents s.rq)

module _ {W D : Type 0} (m : Machine W D) (t : Platform) where
  after_wait-Forward :
      (prev : ℕ) (old : SigMask) (r : WaitResult) (s : System W D)
      → s.current_running ≡ some prev
      → WellFormed s
      → Forward s (after_wait m t prev old r s)
  after_wait-Forward prev old r s c h j before later =
      let sane : IsSane (states s) s.process_count (contents s.rq) (some prev) s.scheduler_active =
        rw (← c) h.1 in
      elim (after_wait-Waited m t s prev old r s c h (Lasting-refl s)) [
        | inl (e, d) ↦ Dispatches-forward j d h.1.queue.distinct later
        | inr (e, d) ↦ omega (
          arith,
          ahead-snoc j prev (contents s.rq) before,
          Dispatches-forward j d
              (Distinct-snoc prev (contents s.rq) (current-Absent sane) h.1.queue.distinct) later,
        )
      ]

  enter-Forward :
      (fuel prev : ℕ) (old : SigMask) (s : System W D)
      → s.current_running ≡ some prev
      → WellFormed s
      → Always (Forward s) (enter m t fuel (some prev) old s)
  unfolding enter
  enter-Forward fuel prev old s c h =
      if-rule (Always (Forward s)) s.scheduler_active (preempt m t fuel prev old s)
        (some (restore_mask old s))
        (λ a.
          preempt-rule m t (Forward s) fuel prev old s
            (λ r w. after_wait-Forward prev old r (in_world s w) c h))
        (λ idle. let busy = h.1.active ∙ ap is_some c in absurd (cc (idle, busy)))

  -- In a well-formed system where a process runs, every process that waits in the queue before the handler of SIGALRM and
  -- after it has at least one process less before it afterwards, whatever the kernel answers.
  pub tick-Forward :
      (fuel prev : ℕ) (s : System W D)
      → s.current_running ≡ some prev
      → WellFormed s
      → Always (Forward s) (tick m t fuel s)
  unfolding tick
  tick-Forward fuel prev s c h =
      subst (λ cur. Always (Forward s) (enter m t fuel cur s.mask (block_chld s))) (sym c)
        (enter-Forward fuel prev s.mask (block_chld s) c h)
