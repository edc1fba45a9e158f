-- ===== src/Scheduler/Dispatch/Policy.antt =====
-- The queue that the dispatching loop leaves.
use minios_lab_edwin_jose.Base.{
  ℕ, zero, suc, ◌≤◌, ◌≡◌, refl, sym, ap, subst, ◌∙◌, Bool, true, false, Option, none, some, List,
  [], ◌∷◌, arith, Bool-cases, inl, inr, eq-cases,
}
use minios_lab_edwin_jose.Machine.{Machine, sigcont}
use minios_lab_edwin_jose.Platform.Laws.{resume_process-kill}
use minios_lab_edwin_jose.Scheduler.Lasting.{Lasting}
use minios_lab_edwin_jose.Scheduler.Dispatch.Lasting.{
  mark_running-Lasting, attempt-Lasting, discard-Lasting,
}
use minios_lab_edwin_jose.Pcb.{is_terminated}
use minios_lab_edwin_jose.Platform.{Platform}
use minios_lab_edwin_jose.RoundRobin.Policy.{Dispatches, nobody, given, passed}
use minios_lab_edwin_jose.ReadyQueue
use minios_lab_edwin_jose.ReadyQueue.Contents.{
  contents, contents-dequeue, contents-nil, is_empty-true, is_empty-false,
}
use minios_lab_edwin_jose.Scheduler.State.{System, stop_timer, report_terminated}
use minios_lab_edwin_jose.Scheduler.View.{states, Switching}
use minios_lab_edwin_jose.Scheduler.Dispatch.{
  idle, resume, mark_running, attempt, discard, dispatch,
}
use minios_lab_edwin_jose.Scheduler.Dispatch.Laws.{
  dequeued, dispatch-resumed, dispatch-failed, dispatch-empty, discard-Switching, head_ready,
}

module _ {W D : Type 0} (m : Machine W D) where
  pub idle-queue : (s : System W D) → ((idle m s).rq ≡ s.rq) × ((idle m s).current_running ≡ none)
  unfolding idle stop_timer
  idle-queue s = (refl, refl)

pub is_empty-contents :
    {W D : Type 0} (s : System W D) → ReadyQueue.is_empty s.rq ≡ true → contents s.rq ≡ []
is_empty-contents s e = elim (eq-cases s.rq.count 0) [
  | inl z ↦ contents-nil s.rq z
  | inr busy ↦ let full = is_empty-false s.rq busy in absurd (cc (e, full))
]

-- Some SIGCONT to the pid of process `i`, as the system has it, is answered so.
abbrev pub Answers : {W D : Type 0} → Machine W D → System W D → Bool → ℕ → Type 0
Answers {W} m s b i = (w : W) × ((m.kill (s.process_table i).pid sigcont w).0 ≡ b)

module _ {W D : Type 0} (m : Machine W D) (t : Platform) (s0 : System W D) where
  -- What `attempt` returns for a process that `s0` has too is the kernel's answer.
  attempt-Answers :
      (b : Bool) (i : ℕ) (s : System W D)
      → is_terminated (s.process_table i).state ≡ false
      → Lasting s0 s
      → (attempt m t i s).0 ≡ b
      → Answers m s0 b i
  unfolding attempt resume
  attempt-Answers b i s alive h done =
      let s1 = mark_running m t i s in
      let call = resume_process-kill m t (s1.process_table i).pid s1.world in
      let same = ((mark_running-Lasting m t s0 i s alive h).1 i).0 in
      (
        s1.world,
        ap (λ p. (m.kill p sigcont s1.world).0) (sym same) ∙ (sym (ap (λ r. r.0) call) ∙ done),
      )

  rq-attempt : (i : ℕ) (s : System W D) → (attempt m t i s).1.rq ≡ s.rq
  unfolding attempt resume mark_running
  rq-attempt i s = refl

  rq-discard : (i : ℕ) (s : System W D) → (discard m t i s).rq ≡ s.rq
  unfolding discard report_terminated
  rq-discard i s = refl

  -- The result of the loop and the queue that it leaves.
  abbrev Gives : List ℕ → Option ℕ × System W D → Type 0
  Gives q (r, s') = Dispatches (Answers m s0 false) (Answers m s0 true) q (contents s'.rq) r

  pub dispatch-Dispatches :
      (fuel : ℕ) (s : System W D)
      → s.rq.count ≤ fuel
      → Switching s
      → Lasting s0 s
      → Gives (contents s.rq) (dispatch m t fuel s)
  dispatch-Dispatches zero s le h kept =
      let z : s.rq.count ≡ 0 = omega arith in
      rw (dispatch-empty m t zero s (is_empty-true s.rq z), contents-nil s.rq z) nobody
  dispatch-Dispatches (suc fuel) s le h kept = elim (eq-cases s.rq.count 0) [
    | inl z ↦
        rw (dispatch-empty m t (suc fuel) s (is_empty-true s.rq z), contents-nil s.rq z) nobody
    | inr ne ↦
        let (i, out, eq, ring, fewer) = contents-dequeue h.0 ne in
        let busy = is_empty-false s.rq ne in
        let alive : is_terminated (states s i) ≡ false =
          ap is_terminated (head_ready i s (rw eq at h.1)) in
        let s1 = dequeued m t s in
        let tried = (attempt m t i s1).1 in
        subst (λ q. Gives q (dispatch m t (suc fuel) s)) (sym eq)
          (elim (Bool-cases (attempt m t i s1).0) [
            | inl done ↦
                subst (Gives (i ∷ contents s1.rq))
                  (sym (dispatch-resumed m t fuel i s busy out alive done))
                  (subst
                    (λ q.
                      Dispatches (Answers m s0 false) (Answers m s0 true) (i ∷ contents s1.rq)
                        (contents q) (some i))
                    (sym (rq-attempt i s1))
                    (given i (contents s1.rq) (attempt-Answers true i s1 alive kept done)))
            | inr lost ↦
                let s2 = discard m t i tried in
                let same : s2.rq ≡ s1.rq = rq-discard i tried ∙ rq-attempt i s1 in
                subst (Gives (i ∷ contents s1.rq))
                  (sym (dispatch-failed m t fuel i s busy out alive lost))
                  (passed i (attempt-Answers false i s1 alive kept lost) (
                    subst (λ q. Gives (contents q) (dispatch m t fuel s2)) same
                      (dispatch-Dispatches fuel s2 (omega (arith, fewer, ap (λ q. q.count) same))
                        (discard-Switching m t i s eq ring h)
                        (discard-Lasting m t s0 i tried (attempt-Lasting m t s0 i s1 alive kept)))))
          ])
  ]
