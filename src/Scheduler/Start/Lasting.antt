-- ===== src/Scheduler/Start/Lasting.antt =====
-- Starting the scheduler takes nothing back.
use minios_lab_edwin_jose.Base.{
  ℕ, ◌≡◌, refl, sym, ap, ◌∙◌, subst, Bool, true, false, some, List, [], ◌∷◌, arith, All,
}
use minios_lab_edwin_jose.Base.Int.{ℤ}
use minios_lab_edwin_jose.Machine.{Machine}
use minios_lab_edwin_jose.Pcb.{ready, running, is_terminated}
use minios_lab_edwin_jose.Platform.{Platform}
use minios_lab_edwin_jose.RoundRobin.{IsWaiting}
use minios_lab_edwin_jose.ReadyQueue
use minios_lab_edwin_jose.ReadyQueue.Contents.{contents, contents-dequeue, is_empty-false}
use minios_lab_edwin_jose.Scheduler.State.{System}
use minios_lab_edwin_jose.Scheduler.View.{states, WellFormed}
use minios_lab_edwin_jose.Scheduler.Lasting.{Lasting, Lasting-put, Lasting-refl}
use minios_lab_edwin_jose.Scheduler.Dispatch.{mark_running, resume}
use minios_lab_edwin_jose.Scheduler.Dispatch.Lasting.{mark_running-Lasting}
use minios_lab_edwin_jose.Scheduler.Start.{activate, launched, launch, start}
use minios_lab_edwin_jose.Scheduler.Start.Laws.{
  start-empty, start-launch, launch-launched, resumes, entered, states-entered, not_empty,
  cons-eq-cons,
}

module _ {W D : Type 0} (m : Machine W D) (t : Platform) (slice_ms : ℤ) where
  -- What was there stays, and so does the signal mask.
  abbrev Stays : System W D → System W D → Type 0
  Stays s0 s = Lasting s0 s × (s.mask ≡ s0.mask)

  entered-Stays :
      (i : ℕ) (s : System W D)
      → is_terminated (states s i) ≡ false
      → Stays s (entered m t slice_ms i s)
  unfolding resume mark_running
  entered-Stays i s alive = (mark_running-Lasting m t s i s alive (Lasting-refl s), refl)

  launched-Stays :
      (b : Bool) (i : ℕ) (s0 s : System W D)
      → states s i ≡ running
      → Stays s0 s
      → Stays s0 (launched m t b slice_ms i s)
  unfolding launched activate
  launched-Stays true i s0 s r h = h
  launched-Stays false i s0 s r (h, k) = (
    Lasting-put s0 i (record (s.process_table i) { state = ready }) s
        (refl, refl, λ e. absurd (cc (e, r))) h,
    k,
  )

  launch-Stays :
      (i : ℕ) (s : System W D)
      → is_terminated (states s i) ≡ false
      → Stays s (launch m t slice_ms i s)
  launch-Stays i s alive = subst (Stays s) (sym (launch-launched m t slice_ms i s)) (
      launched-Stays (resumes m t slice_ms i s) i s (entered m t slice_ms i s)
        (ap (λ f. f i) (states-entered m t slice_ms i s) ∙ ground arith) (entered-Stays i s alive))

  -- Starting a well-formed system leaves the processes of the table what they are, revives none of them,
  -- and keeps the signal mask.
  pub start-Lasting :
      (s : System W D)
      → WellFormed s
      → Lasting s (start m t slice_ms s) × ((start m t slice_ms s).mask ≡ s.mask)
  start-Lasting s h = by_queue (contents s.rq) refl
    where
      by_queue : (q : List ℕ) → contents s.rq ≡ q → Stays s (start m t slice_ms s)
      by_queue [] e = rw (start-empty m t slice_ms s e) (Lasting-refl s, refl)
      by_queue (i ∷ q) e =
          let busy = not_empty s.rq e in
          let (j, out, eq, ring, fewer) = contents-dequeue h.0 busy in
          let (head, tail) = cons-eq-cons (sym e ∙ eq) in
          let queued =
            subst (λ l. All (IsWaiting (states s) s.process_count) l) e h.1.queue.waiting in
          subst (Stays s)
            (sym
              (start-launch m t slice_ms i s (is_empty-false s.rq busy) (out ∙ ap some (sym head))))
            (launch-Stays i (record s { rq = (ReadyQueue.dequeue s.rq).1 })
              (ap is_terminated queued.0.1))
