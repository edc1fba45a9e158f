-- ===== src/Scheduler/Start/Exclusive.antt =====
-- Starting the scheduler wakes no process but the one that it marks RUNNING.
use minios_lab_edwin_jose.Base.{
  ℕ, ◌≡◌, ◌<◌, refl, sym, ap, ◌∙◌, subst, Bool, true, false, some, List, [], ◌∷◌, All,
}
use minios_lab_edwin_jose.Base.Int.{ℤ}
use minios_lab_edwin_jose.Machine.{Machine}
use minios_lab_edwin_jose.Platform.{Platform}
use minios_lab_edwin_jose.RoundRobin.{IsWaiting}
use minios_lab_edwin_jose.ReadyQueue
use minios_lab_edwin_jose.ReadyQueue.Contents.{contents, contents-dequeue, is_empty-false}
use minios_lab_edwin_jose.Timer
use minios_lab_edwin_jose.Timer.Laws.{start-setitimer}
use minios_lab_edwin_jose.Scheduler.State.{System, in_world}
use minios_lab_edwin_jose.Scheduler.View.{states, WellFormed}
use minios_lab_edwin_jose.Scheduler.Exclusive.{
  Stops, Calm, Quiet, Quiet-world, Quiet-put, emit_switch-Quiet,
}
use minios_lab_edwin_jose.Scheduler.Dispatch.{resume}
use minios_lab_edwin_jose.Scheduler.Dispatch.Exclusive.{woken-Quiet, woken-asleep}
use minios_lab_edwin_jose.Scheduler.Start.{activate, launched, launch, start}
use minios_lab_edwin_jose.Scheduler.Start.Laws.{
  start-empty, start-launch, launch-launched, resumes, entered, not_empty, cons-eq-cons,
}

module _ {W D : Type 0} (m : Machine W D) (t : Platform) (slice_ms : ℤ) (awake : W → ℕ → Bool)
    (fresh : W → ℕ) (law : Stops m awake fresh) where
  launched-Quiet :
      (b : Bool) (i : ℕ) (s : System W D)
      → (b ≡ false → awake s.world (s.process_table i).pid ≡ false)
      → Quiet awake fresh s
      → Quiet awake fresh (launched m t b slice_ms i s)
  unfolding launched activate
  launched-Quiet true i s still q =
      let w = Timer.start m (Timer.init slice_ms s.timer) s.world in
      emit_switch-Quiet m awake fresh law _ _ _ (in_world s w) (
        Quiet-world awake fresh s w
          (subst (Calm awake fresh s.world)
            (sym (start-setitimer m (Timer.init slice_ms s.timer) s.world))
            (law.setitimer_calm _ s.world))
          q)
  launched-Quiet false i s still q = Quiet-put awake fresh i _ s refl (λ _ _. still refl) q

  launch-Quiet :
      (i : ℕ) (s : System W D)
      → i < s.process_count
      → awake s.world (s.process_table i).pid ≡ false
      → Quiet awake fresh s
      → Quiet awake fresh (launch m t slice_ms i s)
  unfolding resume
  launch-Quiet i s lt still q = subst (Quiet awake fresh) (sym (launch-launched m t slice_ms i s)) (
      launched-Quiet (resumes m t slice_ms i s) i (entered m t slice_ms i s)
        (λ e. woken-asleep m t awake fresh law i s still e)
        (woken-Quiet m t awake fresh law i s lt q))

  pub start-Quiet :
      (s : System W D)
      → WellFormed s
      → Quiet awake fresh s
      → Quiet awake fresh (start m t slice_ms s)
  start-Quiet s h q = by_queue (contents s.rq) refl
    where
      by_queue : (l : List ℕ) → contents s.rq ≡ l → Quiet awake fresh (start m t slice_ms s)
      by_queue [] e = rw (start-empty m t slice_ms s e) q
      by_queue (i ∷ l) e =
          let busy = not_empty s.rq e in
          let (j, out, eq, ring, fewer) = contents-dequeue h.0 busy in
          let (head, tail) = cons-eq-cons (sym e ∙ eq) in
          let (inside, waits) =
            (subst (λ l. All (IsWaiting (states s) s.process_count) l) e h.1.queue.waiting).0 in
          subst (Quiet awake fresh)
            (sym
              (start-launch m t slice_ms i s (is_empty-false s.rq busy) (out ∙ ap some (sym head))))
            (launch-Quiet i (record s { rq = (ReadyQueue.dequeue s.rq).1 }) inside
              (q.2 i inside (λ r. cc (waits, r))) q)
