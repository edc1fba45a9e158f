-- ===== src/Scheduler/Dispatch/Exclusive.antt =====
-- The dispatch loop wakes no process but the one that it marks RUNNING.
use minios_lab_edwin_jose.Base.{
  ℕ, zero, suc, ◌<◌, ◌≡◌, refl, sym, ap, subst, ◌∙◌, Bool, false, Bool-cases, eq-cases, eq-true,
  inl, inr,
}
use minios_lab_edwin_jose.Machine.{Machine, Timespec}
use minios_lab_edwin_jose.Pcb.{running, terminated, is_terminated}
use minios_lab_edwin_jose.Platform.{Platform}
use minios_lab_edwin_jose.Platform.Laws.{resume_process-kill}
use minios_lab_edwin_jose.ReadyQueue.Contents.{contents-dequeue, is_empty-true, is_empty-false}
use minios_lab_edwin_jose.Timer
use minios_lab_edwin_jose.Scheduler.State.{
  System, set_state, in_world, clock, stop_timer, report_terminated,
}
use minios_lab_edwin_jose.Scheduler.View.{states, Switching}
use minios_lab_edwin_jose.Scheduler.Exclusive.{
  Stops, Calm, CalmBut, Quiet, Quiet-world, Quiet-woken, Quiet-put, Quiet-same,
  emit_terminated-Quiet,
}
use minios_lab_edwin_jose.Scheduler.Dispatch.{
  charge, idle, resume, mark_running, attempt, discard, dispatch,
}
use minios_lab_edwin_jose.Scheduler.Dispatch.Charge.{pid-charge, states-charge}
use minios_lab_edwin_jose.Scheduler.Dispatch.Laws.{
  dequeued, dispatch-empty, dispatch-resumed, dispatch-failed, discard-Switching, head_ready,
  states-mark_running,
}

module _ {W D : Type 0} (m : Machine W D) (t : Platform) (awake : W → ℕ → Bool) (fresh : W → ℕ)
    (law : Stops m awake fresh) where
  pub mark_running-Quiet :
      (i : ℕ) (s : System W D) → Quiet awake fresh s → Quiet awake fresh (mark_running m t i s)
  unfolding mark_running clock
  mark_running-Quiet i s q =
      let s1 = set_state i running s in
      let w = (m.clock_gettime s1.world).1 in
      let marked =
        Quiet-put awake fresh i (record (s.process_table i) { state = running }) s refl
          (λ lt ne. absurd (ne refl)) q in
      Quiet-put awake fresh i _ (in_world s1 w) refl
        (λ lt ne. absurd (ne (rw (eq-true i i refl) refl)))
        (Quiet-world awake fresh s1 w (law.clock_gettime_calm s.world) marked)

  resume-calm :
      (pid : ℕ) (s : System W D) → CalmBut awake fresh pid s.world (resume m t pid s).1.world
  unfolding resume
  resume-calm pid s =
      subst (λ r. CalmBut awake fresh pid s.world r.1) (sym (resume_process-kill m t pid s.world))
        (law.sigcont_calm pid s.world)

  resume-failed :
      (pid : ℕ) (s : System W D)
      → (resume m t pid s).0 ≡ false
      → Calm awake fresh s.world (resume m t pid s).1.world
  unfolding resume
  resume-failed pid s e =
      let k = resume_process-kill m t pid s.world in
      subst (λ r. Calm awake fresh s.world r.1) (sym k)
        (law.sigcont_failed pid s.world (sym (ap (λ r. r.0) k) ∙ e))

  pub attempt-Quiet :
      (i : ℕ) (s : System W D)
      → i < s.process_count
      → Quiet awake fresh s
      → Quiet awake fresh (attempt m t i s).1
  unfolding attempt resume mark_running
  attempt-Quiet i s lt q =
      let s1 = mark_running m t i s in
      Quiet-woken awake fresh i s1 _ lt
        (ap (λ f. f i) (states-mark_running m t i s) ∙ rw (eq-true i i refl) refl)
        (resume-calm (s1.process_table i).pid s1) (mark_running-Quiet i s q)

  -- A candidate that could not be resumed is no more awake than before.
  attempt-asleep :
      (i : ℕ) (s : System W D)
      → awake s.world (s.process_table i).pid ≡ false
      → (attempt m t i s).0 ≡ false
      → awake (attempt m t i s).1.world ((attempt m t i s).1.process_table i).pid ≡ false
  unfolding attempt resume mark_running clock
  attempt-asleep i s still failed =
      let s1 = mark_running m t i s in
      let pid = (s1.process_table i).pid in
      let same : pid ≡ (s.process_table i).pid = rw (eq-true i i refl) refl in
      (resume-failed pid s1 failed).0 pid
        ((law.clock_gettime_calm s.world).0 pid (ap (awake s.world) same ∙ still))

  -- The same of the two calls by themselves.
  pub woken-Quiet :
      (i : ℕ) (s : System W D)
      → i < s.process_count
      → Quiet awake fresh s
      → let s1 = mark_running m t i s in
        Quiet awake fresh (resume m t (s1.process_table i).pid s1).1
  unfolding attempt
  woken-Quiet i s lt q = attempt-Quiet i s lt q

  pub woken-asleep :
      (i : ℕ) (s : System W D)
      → awake s.world (s.process_table i).pid ≡ false
      → let s1 = mark_running m t i s in
        let (done, s2) = resume m t (s1.process_table i).pid s1 in
        done ≡ false → awake s2.world (s2.process_table i).pid ≡ false
  unfolding attempt
  woken-asleep i s still failed = attempt-asleep i s still failed

  discard-Quiet :
      (i : ℕ) (s : System W D)
      → awake s.world (s.process_table i).pid ≡ false
      → Quiet awake fresh s
      → Quiet awake fresh (discard m t i s)
  unfolding discard report_terminated
  discard-Quiet i s still q =
      emit_terminated-Quiet m awake fresh law _ _ _ (set_state i terminated s) (
        Quiet-put awake fresh i (record (s.process_table i) { state = terminated }) s refl
          (λ _ _. still) q)

  -- The whole loop.
  pub dispatch-Quiet :
      (fuel : ℕ) (s : System W D)
      → Switching s
      → Quiet awake fresh s
      → Quiet awake fresh (dispatch m t fuel s).1
  unfolding dispatch
  dispatch-Quiet zero s h q = q
  dispatch-Quiet (suc fuel) s h q = elim (eq-cases s.rq.count 0) [
    | inl e ↦ rw (dispatch-empty m t (suc fuel) s (is_empty-true s.rq e)) q
    | inr ne ↦
        let (i, out, eq, ring, fewer) = contents-dequeue h.0 ne in
        let busy = is_empty-false s.rq ne in
        let waits = head_ready i s (rw eq at h.1) in
        let inside = (rw eq at h.1).queue.waiting.0.0 in
        let alive : is_terminated (states s i) ≡ false = ap is_terminated waits in
        let s1 = dequeued m t s in
        let tried = attempt-Quiet i s1 inside q in
        let still = q.2 i inside (h.1.none_running i) in
        elim (Bool-cases (attempt m t i s1).0) [
          | inl done ↦ rw (dispatch-resumed m t fuel i s busy out alive done) tried
          | inr lost ↦ rw (dispatch-failed m t fuel i s busy out alive lost) (
              dispatch-Quiet fuel (discard m t i (attempt m t i s1).1)
                (discard-Switching m t i s eq ring h)
                (discard-Quiet i (attempt m t i s1).1 (attempt-asleep i s1 still lost) tried))
        ]
  ]

  pub idle-Quiet : (s : System W D) → Quiet awake fresh s → Quiet awake fresh (idle m s)
  unfolding idle stop_timer Timer.stop
  idle-Quiet s q =
      Quiet-world awake fresh s (Timer.stop m s.world) (law.setitimer_calm Timer.disarmed s.world) q

  pub charge-Quiet :
      (i : ℕ) (now : Timespec) (s : System W D)
      → Quiet awake fresh s
      → Quiet awake fresh (charge m i now s)
  unfolding charge
  charge-Quiet i now s q =
      Quiet-same awake fresh s (charge m i now s) refl refl (pid-charge m i now s)
        (λ j. ap (λ f. f j) (states-charge m i now s)) q

  -- Charging a slice wakes nobody.
  pub charge-asleep :
      (i : ℕ) (now : Timespec) (s : System W D) (j : ℕ)
      → awake s.world (s.process_table j).pid ≡ false
      → awake (charge m i now s).world ((charge m i now s).process_table j).pid ≡ false
  unfolding charge
  charge-asleep i now s j still = ap (awake s.world) (pid-charge m i now s j) ∙ still
