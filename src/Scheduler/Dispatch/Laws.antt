-- ===== src/Scheduler/Dispatch/Laws.antt =====
-- What the dispatching loop does to the queue and to the states of the processes.
use minios_lab_edwin_jose.Base.{
  ℕ, zero, suc, ◌≤◌, ◌≡◌, ◌≢◌, refl, sym, ap, ◌∙◌, fun_ext, true, false, Option, none, some, List,
  [], ◌∷◌, update, arith, Bool-cases, Option-cases, ◌⊎◌, inl, inr, eq-cases, update-update,
}
use minios_lab_edwin_jose.Machine.{Machine, sigcont}
use minios_lab_edwin_jose.Platform.Laws.{resume_process-kill}
use minios_lab_edwin_jose.Pcb.{ready, running, terminated, is_terminated}
use minios_lab_edwin_jose.Platform.{Platform}
use minios_lab_edwin_jose.RoundRobin.{IsSane, IsBetween, take_next, give_up, rest}
use minios_lab_edwin_jose.ReadyQueue
use minios_lab_edwin_jose.ReadyQueue.Contents.{
  IsRing, contents, contents-dequeue, contents-nil, is_empty-true, is_empty-false,
}
use minios_lab_edwin_jose.Scheduler.State.{System, stop_timer, report_terminated}
use minios_lab_edwin_jose.Scheduler.View.{
  states, WellFormed, Switching, states-put, IsSane-cast, IsBetween-cast,
}
use minios_lab_edwin_jose.Scheduler.Dispatch.{
  idle, resume, mark_running, attempt, discard, dispatch,
}

module _ {W D : Type 0} (m : Machine W D) (t : Platform) where
  pub states-mark_running :
      (i : ℕ) (s : System W D) → states (mark_running m t i s) ≡ update (states s) i running
  unfolding mark_running
  states-mark_running i s = fun_ext (λ j. ground arith)

  -- The system without the oldest entry of the queue.
  abbrev pub dequeued : System W D → System W D
  dequeued s = record s { rq = (ReadyQueue.dequeue s.rq).1 }

  module _ (fuel i : ℕ) (s : System W D) where
    pub dispatch-resumed :
        ReadyQueue.is_empty s.rq ≡ false
        → (ReadyQueue.dequeue s.rq).0 ≡ some i
        → is_terminated (states s i) ≡ false
        → (attempt m t i (dequeued s)).0 ≡ true
        → dispatch m t (suc fuel) s ≡ (some i, (attempt m t i (dequeued s)).1)
    unfolding dispatch
    dispatch-resumed e d r a = ground arith

    pub dispatch-failed :
        ReadyQueue.is_empty s.rq ≡ false
        → (ReadyQueue.dequeue s.rq).0 ≡ some i
        → is_terminated (states s i) ≡ false
        → (attempt m t i (dequeued s)).0 ≡ false
        → dispatch m t (suc fuel) s
          ≡ dispatch m t fuel (discard m t i (attempt m t i (dequeued s)).1)
    unfolding dispatch
    dispatch-failed e d r a = ground arith

  pub dispatch-empty :
      (fuel : ℕ) (s : System W D)
      → ReadyQueue.is_empty s.rq ≡ true
      → dispatch m t fuel s ≡ (none, s)
  unfolding dispatch
  dispatch-empty zero s e = refl
  dispatch-empty (suc fuel) s e = ground arith

  -- A candidate that was tried is RUNNING, whether or not it could be resumed.
  pub states-attempt :
      (i : ℕ) (s : System W D) → states (attempt m t i s).1 ≡ update (states s) i running
  unfolding attempt resume
  states-attempt i s = states-mark_running i s

  pub frame-attempt :
      (i : ℕ) (s : System W D)
      → ((attempt m t i s).1.rq ≡ s.rq) × ((attempt m t i s).1.process_count ≡ s.process_count)
  unfolding attempt resume mark_running
  frame-attempt i s = (refl, refl)

  states-discard :
      (i : ℕ) (s : System W D) → states (discard m t i s) ≡ update (states s) i terminated
  unfolding discard report_terminated
  states-discard i s = states-put i (record (s.process_table i) { state = terminated }) s

  frame-discard :
      (i : ℕ) (s : System W D)
      → ((discard m t i s).rq ≡ s.rq) × ((discard m t i s).process_count ≡ s.process_count)
  unfolding discard report_terminated
  frame-discard i s = (refl, refl)

  pub states-discarded :
      (i : ℕ) (s : System W D)
      → states (discard m t i (attempt m t i s).1) ≡ update (states s) i terminated
  states-discarded i s =
      states-discard i (attempt m t i s).1
      ∙ (ap (λ f. update f i terminated) (states-attempt i s)
          ∙ update-update (states s) i running terminated)

  count-discarded :
      (i : ℕ) (s : System W D) → (discard m t i (attempt m t i s).1).rq.count ≡ s.rq.count
  count-discarded i s =
      ap (λ r. r.count) ((frame-discard i (attempt m t i s).1).0 ∙ (frame-attempt i s).0)

  module _ (i : ℕ) (s : System W D) (eq : contents s.rq ≡ i ∷ contents (ReadyQueue.dequeue s.rq).1)
      (ring : IsRing (ReadyQueue.dequeue s.rq).1) (h : Switching s) where
    attempt-Running :
        let s' = (attempt m t i (dequeued s)).1 in
        IsRing s'.rq × IsSane (states s') s'.process_count (contents s'.rq) (some i) true
    attempt-Running =
        IsSane-cast (states-attempt i (dequeued s)) (frame-attempt i (dequeued s)).1
          (frame-attempt i (dequeued s)).0 (ring, take_next (rw eq at h.1))

    pub discard-Switching : Switching (discard m t i (attempt m t i (dequeued s)).1)
    discard-Switching =
        IsBetween-cast (states-discarded i (dequeued s))
          ((frame-discard i (attempt m t i (dequeued s)).1).1 ∙ (frame-attempt i (dequeued s)).1)
          ((frame-discard i (attempt m t i (dequeued s)).1).0 ∙ (frame-attempt i (dequeued s)).0)
          (ring, give_up (rw eq at h.1))

-- What holds after the loop: a process was resumed and is the one that runs, or the queue is empty.
abbrev pub Dispatched : {W D : Type 0} → Option ℕ → System W D → Type 0
Dispatched none s = Switching s × (contents s.rq ≡ [])
Dispatched (some i) s =
    IsRing s.rq × IsSane (states s) s.process_count (contents s.rq) (some i) true

-- The call that resumed the process: the kernel took the SIGCONT to the pid in its entry, and nothing was
-- done after that.
abbrev pub Resumed : {W D : Type 0} → Machine W D → Option ℕ → System W D → Type 0
Resumed m none s = Unit
Resumed {W} m (some i) s =
    (w : W) × ((m.kill (s.process_table i).pid sigcont w).0 ≡ true)
    × (s.world ≡ (m.kill (s.process_table i).pid sigcont w).1)

attempt-Resumed :
    {W D : Type 0} (m : Machine W D) (t : Platform) (i : ℕ) (s : System W D)
    → (attempt m t i s).0 ≡ true
    → Resumed m (some i) (attempt m t i s).1
unfolding attempt resume
attempt-Resumed m t i s done =
    let s1 = mark_running m t i s in
    let call = resume_process-kill m t (s1.process_table i).pid s1.world in
    (s1.world, sym (ap (λ r. r.0) call) ∙ done, ap (λ r. r.1) call)

pub head_ready :
    {W D : Type 0} (i : ℕ) (s : System W D) {n : ℕ} {q : List ℕ}
    → IsBetween (states s) n (i ∷ q)
    → states s i ≡ ready
head_ready i s h = h.queue.waiting.0.1

-- With as many rounds as there are entries the loop ends as the code's does: either the kernel took
-- the SIGCONT to the pid of the process that the loop returns, as the last call made, and that process
-- alone is RUNNING, or the queue is empty and no process is RUNNING.
pub dispatch_lem :
    {W D : Type 0} (m : Machine W D) (t : Platform) (fuel : ℕ) (s : System W D)
    → s.rq.count ≤ fuel
    → Switching s
    → Dispatched (dispatch m t fuel s).0 (dispatch m t fuel s).1
      × Resumed m (dispatch m t fuel s).0 (dispatch m t fuel s).1
dispatch_lem m t zero s le h =
    rw (dispatch-empty m t zero s (is_empty-true s.rq (omega arith)))
      ((h, contents-nil s.rq (omega arith)), tt)
dispatch_lem m t (suc fuel) s le h = elim (eq-cases s.rq.count 0) [
  | inl e ↦
      rw (dispatch-empty m t (suc fuel) s (is_empty-true s.rq e)) ((h, contents-nil s.rq e), tt)
  | inr ne ↦
      let (i, out, eq, ring, fewer) = contents-dequeue h.0 ne in
      let busy = is_empty-false s.rq ne in
      let alive : is_terminated (states s i) ≡ false =
        ap is_terminated (head_ready i s (rw eq at h.1)) in
      elim (Bool-cases (attempt m t i (dequeued m t s)).0) [
        | inl done ↦
            rw (dispatch-resumed m t fuel i s busy out alive done)
              (attempt-Running m t i s eq ring h, attempt-Resumed m t i (dequeued m t s) done)
        | inr lost ↦ rw (dispatch-failed m t fuel i s busy out alive lost) (
            dispatch_lem m t fuel (discard m t i (attempt m t i (dequeued m t s)).1)
              (omega (arith, fewer, count-discarded m t i (dequeued m t s)))
              (discard-Switching m t i s eq ring h))
      ]
]

-- Going idle when no process is RUNNING.
pub idle-WellFormed :
    {W D : Type 0} (m : Machine W D) (s : System W D) → Switching s → WellFormed (idle m s)
unfolding idle stop_timer
idle-WellFormed m s h = (h.0, rest h.1)

pub idle-mask : {W D : Type 0} (m : Machine W D) (s : System W D) → (idle m s).mask ≡ s.mask
unfolding idle stop_timer
idle-mask m s = refl

module _ {W D : Type 0} (m : Machine W D) (t : Platform) where
  active-attempt :
      (i : ℕ) (s : System W D) → (attempt m t i s).1.scheduler_active ≡ s.scheduler_active
  unfolding attempt resume mark_running
  active-attempt i s = refl

  active-discard :
      (i : ℕ) (s : System W D) → (discard m t i s).scheduler_active ≡ s.scheduler_active
  unfolding discard report_terminated
  active-discard i s = refl

  -- The four ways in which a round can go.
  pub dispatch-cases :
      (fuel : ℕ) (s : System W D)
      → (dispatch m t (suc fuel) s ≡ (none, s))
        ⊎ (dispatch m t (suc fuel) s ≡ dispatch m t fuel (dequeued m t s))
        ⊎ ((i : ℕ) × (is_terminated (s.process_table i).state ≡ false)
            × (dispatch m t (suc fuel) s ≡ (some i, (attempt m t i (dequeued m t s)).1)))
        ⊎ ((i : ℕ) × (is_terminated (s.process_table i).state ≡ false)
            × (dispatch m t (suc fuel) s
                ≡ dispatch m t fuel (discard m t i (attempt m t i (dequeued m t s)).1)))
  unfolding dispatch
  dispatch-cases fuel s = elim (Bool-cases (ReadyQueue.is_empty s.rq)) [
    | inl e ↦ inl (ground arith)
    | inr e ↦ elim (Option-cases (ReadyQueue.dequeue s.rq).0) [
      | inl o ↦ inr (inl (ground arith))
      | inr (i, o) ↦ elim (Bool-cases (is_terminated (s.process_table i).state)) [
        | inl d ↦ inr (inl (ground arith))
        | inr d ↦ elim (Bool-cases (attempt m t i (dequeued m t s)).0) [
          | inl a ↦ inr (inr (inl (i, d, ground arith)))
          | inr a ↦ inr (inr (inr (i, d, ground arith)))
        ]
      ]
    ]
  ]

  -- The loop does not touch `scheduler_active`.
  pub frame-dispatch :
      (fuel : ℕ) (s : System W D) → (dispatch m t fuel s).1.scheduler_active ≡ s.scheduler_active
  unfolding dispatch
  frame-dispatch zero s = refl
  frame-dispatch (suc fuel) s = elim (dispatch-cases fuel s) [
    | inl e ↦ ap (λ r. r.1.scheduler_active) e
    | inr (inl e) ↦ ap (λ r. r.1.scheduler_active) e ∙ frame-dispatch fuel (dequeued m t s)
    | inr (inr (inl (i, d, e))) ↦
        ap (λ r. r.1.scheduler_active) e ∙ active-attempt i (dequeued m t s)
    | inr (inr (inr (i, d, e))) ↦
        ap (λ r. r.1.scheduler_active) e
        ∙ (frame-dispatch fuel (discard m t i (attempt m t i (dequeued m t s)).1)
            ∙ (active-discard i (attempt m t i (dequeued m t s)).1
                ∙ active-attempt i (dequeued m t s)))
  ]

  attempt-delivered :
      ((pid : ℕ) (w : W) → (m.kill pid sigcont w).0 ≡ true)
      → (i : ℕ) (s : System W D) → (attempt m t i s).0 ≡ true
  unfolding attempt resume
  attempt-delivered delivers i s = ap (λ r. r.0) (resume_process-kill m t _ _) ∙ delivers _ _

  rq-attempt : (i : ℕ) (s : System W D) → (attempt m t i s).1.rq ≡ s.rq
  rq-attempt i s = (frame-attempt m t i s).0

  -- Where signals are delivered, the oldest process of the queue is resumed at once.
  pub dispatch-delivered :
      ((pid : ℕ) (w : W) → (m.kill pid sigcont w).0 ≡ true)
      → (fuel : ℕ) (s : System W D) → s.rq.count ≤ fuel
      → s.rq.count ≢ 0
      → Switching s
      → (i : ℕ) × ((dispatch m t fuel s).0 ≡ some i)
        × (i ∷ contents (dispatch m t fuel s).1.rq ≡ contents s.rq)
  dispatch-delivered delivers zero s le ne h = absurd (omega arith)
  dispatch-delivered delivers (suc fuel) s le ne h =
      let (i, out, eq, ring, fewer) = contents-dequeue h.0 ne in
      let alive : is_terminated (states s i) ≡ false =
        ap is_terminated (head_ready i s (rw eq at h.1)) in
      let step =
        dispatch-resumed m t fuel i s (is_empty-false s.rq ne) out alive
          (attempt-delivered delivers i (dequeued m t s)) in
      (
        i,
        ap (λ r. r.0) step,
        ap (λ (r : Option ℕ × System W D). i ∷ contents r.1.rq) step
            ∙ (ap (λ r. i ∷ contents r) (rq-attempt i (dequeued m t s)) ∙ sym eq),
      )
