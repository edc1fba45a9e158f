-- ===== src/Scheduler/Dispatch/Lasting.antt =====
-- The dispatch loop, going idle and the charging of a slice take nothing back.
use minios_lab_edwin_jose.Base.{
  ℕ, zero, suc, ◌≡◌, refl, sym, ap, subst, false, Option, ◌==◌, if◌then◌else◌, ltb, ◌&&◌, inl, inr,
  arith,
}
use minios_lab_edwin_jose.Machine.{Machine, Timespec}
use minios_lab_edwin_jose.Pcb.{running, terminated, is_terminated, is_ready}
use minios_lab_edwin_jose.Platform.{Platform}
use minios_lab_edwin_jose.Scheduler.State.{
  System, stop_timer, set_state, in_world, clock, report_terminated,
}
use minios_lab_edwin_jose.Scheduler.Lasting.{SameProcess, Lasting, Lasting-put, Lasting-trans}
use minios_lab_edwin_jose.Scheduler.Dispatch.{
  idle, charge, attempt, discard, dispatch, mark_running, resume,
}
use minios_lab_edwin_jose.Scheduler.Dispatch.Charge.{charge-at, elapsed}
use minios_lab_edwin_jose.Scheduler.Dispatch.Laws.{dequeued, dispatch-cases}

module _ {W D : Type 0} (m : Machine W D) (t : Platform) (s0 : System W D) where
  pub mark_running-Lasting :
      (i : ℕ) (s : System W D)
      → is_terminated (s.process_table i).state ≡ false
      → Lasting s0 s
      → Lasting s0 (mark_running m t i s)
  unfolding mark_running clock
  mark_running-Lasting i s alive h =
      let s1 = set_state i running s in
      let w = (m.clock_gettime s1.world).1 in
      Lasting-put s0 i _ (in_world s1 w) (refl, refl, λ e. e)
        (Lasting-put s0 i (record (s.process_table i) { state = running }) s
          (refl, refl, λ e. absurd (cc (ap is_terminated e, alive))) h)

  pub attempt-Lasting :
      (i : ℕ) (s : System W D)
      → is_terminated (s.process_table i).state ≡ false
      → Lasting s0 s
      → Lasting s0 (attempt m t i s).1
  unfolding attempt resume
  attempt-Lasting i s alive h = mark_running-Lasting i s alive h

  pub discard-Lasting : (i : ℕ) (s : System W D) → Lasting s0 s → Lasting s0 (discard m t i s)
  unfolding discard report_terminated
  discard-Lasting i s h =
      Lasting-put s0 i (record (s.process_table i) { state = terminated }) s (refl, refl, λ _. refl)
        h

  pub dispatch-Lasting :
      (fuel : ℕ) (s : System W D) → Lasting s0 s → Lasting s0 (dispatch m t fuel s).1
  unfolding dispatch
  dispatch-Lasting zero s h = h
  dispatch-Lasting (suc fuel) s h = elim (dispatch-cases m t fuel s) [
    | inl e ↦ back e h
    | inr (inl e) ↦ back e (dispatch-Lasting fuel (dequeued m t s) h)
    | inr (inr (inl (i, d, e))) ↦ back e (attempt-Lasting i (dequeued m t s) d h)
    | inr (inr (inr (i, d, e))) ↦ back e (
        dispatch-Lasting fuel (discard m t i (attempt m t i (dequeued m t s)).1) (
          discard-Lasting i (attempt m t i (dequeued m t s)).1
            (attempt-Lasting i (dequeued m t s) d h)))
  ]
    where
      back : {x y : Option ℕ × System W D} → x ≡ y → Lasting s0 y.1 → Lasting s0 x.1
      back e g = subst (λ r. Lasting s0 r.1) (sym e) g

  pub idle-Lasting : (s : System W D) → Lasting s0 s → Lasting s0 (idle m s)
  unfolding idle stop_timer
  idle-Lasting s h = h

  pub charge-Lasting :
      (i : ℕ) (now : Timespec) (s : System W D) → Lasting s0 s → Lasting s0 (charge m i now s)
  unfolding charge
  charge-Lasting i now s h =
      Lasting-trans s0 s (charge m i now s) h (
        refl,
        λ j. subst (SameProcess (s.process_table j)) (sym (charge-at m i now s j)) (charged j),
      )
    where
      charged :
          (j : ℕ)
          → SameProcess (s.process_table j) (
              if j == i
              then record (s.process_table i) {
                cpu_time_ms = m.add (s.process_table i).cpu_time_ms (elapsed m i now s);
              }
              else if ltb j s.process_count && is_ready (s.process_table j).state
              then record (s.process_table j) {
                wait_time_ms = m.add (s.process_table j).wait_time_ms (elapsed m i now s);
              }
              else s.process_table j)
      charged j = (ground arith, ground arith, λ e. ground arith)
