-- ===== src/Scheduler/Tick/Rotation.antt =====
-- Round robin: on a machine whose processes stop and continue when told to, each tick moves every
-- process of the cycle one place on, and so each of them gets the processor in turn.
use minios_lab_edwin_jose.Base.{
  ℕ, zero, suc, ◌≡◌, ◌≢◌, refl, sym, ap, subst, ◌∙◌, true, false, Option, none, some, List, [], ◌∷◌,
  ◌++◌, arith, length, length-append, is_some, append_assoc, append-nil, some-eq-some, Always,
}
use minios_lab_edwin_jose.Machine.{
  Machine, Signal, sigcont, WaitResult, changed, stopped, child, untraced,
}
use minios_lab_edwin_jose.Platform
use minios_lab_edwin_jose.Platform.{Platform}
use minios_lab_edwin_jose.ReadyQueue
use minios_lab_edwin_jose.ReadyQueue.Contents.{
  contents, length-contents, is_empty-false, size-count,
}
use minios_lab_edwin_jose.Scheduler.State.{
  System, SigMask, in_world, clock, waitpid, emit_switch, block_chld,
}
use minios_lab_edwin_jose.Scheduler.View.{WellFormed, Switching}
use minios_lab_edwin_jose.Scheduler.Dispatch.{charge}
use minios_lab_edwin_jose.Scheduler.Dispatch.Charge.{charge-IsSane, pid-charge, frame-charge}
use minios_lab_edwin_jose.Scheduler.Dispatch.Laws.{dispatch-delivered}
use minios_lab_edwin_jose.Scheduler.Tick.{
  has_died, settle_alive, settle, finish, switch_to_next, after_wait, preempt, enter, tick,
}
use minios_lab_edwin_jose.Scheduler.Tick.Laws.{
  settle_alive-queue, wait_stopped-done, tick-WellFormed,
}

-- Signals are delivered, and a child that is waited for after SIGSTOP is found stopped.
pub record Cooperative {W D : Type 0} (m : Machine W D) : Type 0 where
  pub delivers : (pid : ℕ) (sig : Signal) (w : W) → (m.kill pid sig w).0 ≡ true
  pub stops : (pid : ℕ) (w : W) → (m.waitpid (child pid) untraced w).0 ≡ changed pid (stopped 19)

-- The running process and those that wait for it, in the order in which they run.
abbrev pub cycle_of : Option ℕ → List ℕ → List ℕ
cycle_of none q = q
cycle_of (some i) q = i ∷ q

abbrev pub cycle : {W D : Type 0} → System W D → List ℕ
cycle s = cycle_of s.current_running (contents s.rq)

-- The cycle is `l`, and its first process runs.
abbrev pub Turned : {W D : Type 0} → List ℕ → System W D → Type 0
Turned l s = (cycle s ≡ l) × (is_some s.current_running ≡ true)

abbrev pub rotate : List ℕ → List ℕ
rotate [] = []
rotate (i ∷ q) = q ++ i ∷ []

-- The list is not empty: its first entry and the others.
snoc-cons : (q : List ℕ) (i : ℕ) → (j : ℕ) × (r : List ℕ) × (q ++ i ∷ [] ≡ j ∷ r)
snoc-cons [] i = (i, [], refl)
snoc-cons (j ∷ q) i = (j, q ++ i ∷ [], refl)

not_empty :
    (q : ReadyQueue.ReadyQueue) (l : List ℕ) (i : ℕ) → contents q ≡ l ++ i ∷ [] → q.count ≢ 0
not_empty q l i e z = omega (arith, length-contents q, ap length e, length-append l (i ∷ []), z)

has_died-stopped : (p q n : ℕ) → has_died p (changed q (stopped n)) ≡ false
unfolding has_died
has_died-stopped p q n = ground arith

module _ {W D : Type 0} (m : Machine W D) (t : Platform)
    (delivers : (pid : ℕ) (sig : Signal) (w : W) → (m.kill pid sig w).0 ≡ true) where
  finish-cycle :
      (prev i : ℕ) (old : SigMask) (next : Option ℕ) (s : System W D)
      → next ≡ some i
      → Turned (i ∷ contents s.rq) (finish m t prev old next s)
  unfolding finish emit_switch
  finish-cycle prev i old none s e = cc
  finish-cycle prev i old (some j) s e = (ap (λ k. k ∷ contents s.rq) (some-eq-some e), refl)

  -- The oldest process of the queue is the one that is resumed.
  switch-cycle :
      (prev : ℕ) (old : SigMask) (s : System W D)
      → s.rq.count ≢ 0
      → Switching s
      → Turned (contents s.rq) (switch_to_next m t prev old s)
  unfolding switch_to_next
  switch-cycle prev old s ne h =
      let (i, out, eq) =
        dispatch-delivered m t (λ pid w. delivers pid sigcont w) (ReadyQueue.size s.rq) s
          (size-count s.rq) ne h in
      rw (is_empty-false s.rq ne, ← eq) (finish-cycle prev i old _ _ out)

  settle-alive :
      (prev : ℕ) (r : WaitResult) (s : System W D)
      → has_died (s.process_table prev).pid r ≡ false
      → settle m t prev r s ≡ settle_alive m t prev s
  unfolding settle
  settle-alive prev r s e = ground arith

  -- The process that ran goes to the end of the queue, and the oldest one runs.
  after_wait-cycle :
      (prev : ℕ) (old : SigMask) (r : WaitResult) (s : System W D)
      → s.current_running ≡ some prev
      → has_died (s.process_table prev).pid r ≡ false
      → WellFormed s
      → Turned (rotate (cycle s)) (after_wait m t prev old r s)
  unfolding after_wait clock
  after_wait-cycle prev old r s c alive h =
      let (now, w) = m.clock_gettime s.world in
      let s1 = charge m prev now (in_world s w) in
      let paid =
        charge-IsSane m prev now (in_world s w) (some prev) s.scheduler_active
          (h.0, rw (← c) h.1) in
      let (queued, put_back) = settle_alive-queue m t prev s1 paid.0 paid.1 in
      let settled = settle-alive prev r s1 (rw (pid-charge m prev now (in_world s w) prev) alive) in
      let switched =
        switch-cycle prev old (settle_alive m t prev s1)
          (not_empty (settle_alive m t prev s1).rq (contents s1.rq) prev queued) put_back in
      subst (λ x. Turned (rotate (cycle s)) (switch_to_next m t prev old x)) (sym settled)
        (
          switched.0
              ∙ (queued
                  ∙ (ap (λ r. contents r ++ prev ∷ []) (frame-charge m prev now (in_world s w)).0
                      ∙ ap (λ cur. rotate (cycle_of cur (contents s.rq))) (sym c))),
          switched.1,
        )

module _ {W D : Type 0} (m : Machine W D) (t : Platform) (coop : Cooperative m) where
  preempt-cycle :
      (fuel prev : ℕ) (old : SigMask) (s : System W D)
      → s.current_running ≡ some prev
      → WellFormed s
      → (s' : System W D) × (preempt m t (suc fuel) prev old s ≡ some s')
        × Turned (rotate (cycle s)) s'
  unfolding preempt waitpid
  preempt-cycle fuel prev old s c h =
      let pid = (s.process_table prev).pid in
      let s1 = in_world s (Platform.stop_process m t pid s.world).1 in
      let (r, w) = m.waitpid (child pid) untraced s1.world in
      let waited = wait_stopped-done m fuel pid s1 (λ e. cc (coop.stops pid s1.world)) in
      (
        after_wait m t prev old r (in_world s1 w),
        ground (arith, waited),
        after_wait-cycle m t coop.delivers prev old r (in_world s1 w) c
            (ap (has_died pid) (coop.stops pid s1.world) ∙ has_died-stopped pid pid 19) h,
      )

  tick-cycle :
      (fuel prev : ℕ) (s : System W D)
      → s.current_running ≡ some prev
      → WellFormed s
      → (s' : System W D) × (tick m t (suc fuel) s ≡ some s') × Turned (rotate (cycle s)) s'
  unfolding tick enter
  tick-cycle fuel prev s c h =
      let (s', e, turned) = preempt-cycle fuel prev s.mask (block_chld s) c h in
      (s', ground (arith, e, c, h.1.active), turned)

  -- While a process runs, a tick turns the cycle of the processes by one place, and a process runs
  -- after it too.
  pub tick-rotate :
      (fuel prev : ℕ) (s : System W D)
      → s.current_running ≡ some prev
      → WellFormed s
      → (s' : System W D) × (tick m t (suc fuel) s ≡ some s')
        × WellFormed s'
        × (cycle s' ≡ rotate (cycle s))
        × (is_some s'.current_running ≡ true)
  tick-rotate fuel prev s c h =
      let (s', e, turned) = tick-cycle fuel prev s c h in
      (s', e, subst (Always WellFormed) e (tick-WellFormed m t (suc fuel) s h), turned.0, turned.1)

-- `n` expirations of the timer, one after the other.
pub ticks :
    {W D : Type 0} → Machine W D → Platform → (fuel n : ℕ) → System W D → Option (System W D)
ticks m t fuel zero s = some s
ticks m t fuel (suc n) s = elim (tick m t fuel s) [ none ↦ none | some s1 ↦ ticks m t fuel n s1 ]

cycle-head :
    (cur : Option ℕ) {q l : List ℕ} {i : ℕ}
    → is_some cur ≡ true
    → cycle_of cur q ≡ i ∷ l
    → (cur ≡ some i) × (q ≡ l)
cycle-head none runs e = cc
cycle-head (some j) runs e = (cc, cc)

module _ {W D : Type 0} (m : Machine W D) (t : Platform) (coop : Cooperative m) where
  ticks-suc :
      (fuel n : ℕ) (s s1 : System W D)
      → tick m t fuel s ≡ some s1
      → ticks m t fuel (suc n) s ≡ ticks m t fuel n s1
  unfolding ticks
  ticks-suc fuel n s s1 e = ground (arith, e)

  -- Every process of the cycle gets the processor: the one with `before` ahead of it runs after as
  -- many ticks as `before` is long, and those that were ahead of it then wait behind it in their order.
  pub ticks-reach :
      (fuel : ℕ) (before : List ℕ) (i : ℕ) (after : List ℕ) (s : System W D)
      → is_some s.current_running ≡ true
      → WellFormed s
      → cycle s ≡ before ++ i ∷ after
      → (s' : System W D) × (ticks m t (suc fuel) (length before) s ≡ some s')
        × WellFormed s'
        × (s'.current_running ≡ some i)
        × (contents s'.rq ≡ after ++ before)
  unfolding ticks
  ticks-reach fuel [] i after s runs h e =
      let (cur, rest) = cycle-head s.current_running runs e in
      (s, refl, h, cur, rest ∙ sym (append-nil after))
  ticks-reach fuel (j ∷ before) i after s runs h e =
      let (cur, rest) = cycle-head s.current_running runs e in
      let (s1, ticked, h1, turned, runs1) = tick-rotate m t coop fuel j s cur h in
      let place : cycle s1 ≡ before ++ i ∷ (after ++ j ∷ []) =
        turned ∙ (ap rotate e ∙ append_assoc before (i ∷ after) (j ∷ [])) in
      let (s', done, h', cur', behind) =
        ticks-reach fuel before i (after ++ j ∷ []) s1 runs1 h1 place in
      (
        s',
        ticks-suc (suc fuel) (length before) s s1 ticked ∙ done,
        h',
        cur',
        behind ∙ append_assoc after (j ∷ []) before,
      )
