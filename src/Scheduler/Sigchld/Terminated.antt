-- ===== src/Scheduler/Sigchld/Terminated.antt =====
-- The handler of SIGCHLD revives no process that is TERMINATED, and buries those that have ended.
use minios_lab_edwin_jose.Base.{
  ℕ, ◌≡◌, refl, ap, ◌∙◌, true, Option, none, some, if◌then◌else◌, if-rule, eq-true, arith, Always,
  Bool-cases, inl, inr,
}
use minios_lab_edwin_jose.Machine.{Machine, WaitStatus, is_dead}
use minios_lab_edwin_jose.Pcb.{ProcState, terminated, is_terminated}
use minios_lab_edwin_jose.Platform.{Platform}
use minios_lab_edwin_jose.Scheduler.State.{System, in_world, emit_terminated, clock}
use minios_lab_edwin_jose.Scheduler.View.{states, states-put}
use minios_lab_edwin_jose.Scheduler.Lasting.{Lasting, Lasting-refl}
use minios_lab_edwin_jose.Scheduler.Dispatch.{charge}
use minios_lab_edwin_jose.Scheduler.Sigchld.{
  is_current, replace_running, mark_dead, reap_process, reap_found, reap, sigchld, find_pid,
}
use minios_lab_edwin_jose.Scheduler.Sigchld.Lasting.{sigchld-Lasting, replace_running-Lasting}

-- A process that is TERMINATED stays so through the handler of SIGCHLD.
sigchld-Gone :
    {W D : Type 0} (m : Machine W D) (t : Platform) (j fuel : ℕ) (s : System W D)
    → states s j ≡ terminated
    → Always (λ (s' : System W D). states s' j ≡ terminated) (sigchld m t fuel s)
sigchld-Gone {W} {D} m t j fuel s h = stays (sigchld m t fuel s) (sigchld-Lasting m t fuel s)
  where
    stays :
        (o : Option (System W D))
        → Always (λ (s' : System W D). Lasting s s' × (s'.mask ≡ s.mask)) o
        → Always (λ (s' : System W D). states s' j ≡ terminated) o
    stays none k = tt
    stays (some s') k = (k.0.1 j).2 h

module _ {W D : Type 0} (m : Machine W D) (t : Platform) (pid idx : ℕ) where
  dead-mark_dead : (s : System W D) → states (mark_dead m t pid idx s) idx ≡ terminated
  unfolding mark_dead emit_terminated
  dead-mark_dead s = ap (λ f. f idx) (states-put idx _ s) ∙ rw (eq-true idx idx refl) refl

  -- Dead before the next process is picked, and still dead after.
  buried :
      (s : System W D)
      → let dead = mark_dead m t pid idx s in
        states (if is_current idx dead then replace_running m t pid dead else dead) idx ≡ terminated
  buried s =
      let dead = mark_dead m t pid idx s in
      if-rule (λ (x : System W D). states x idx ≡ terminated) (is_current idx dead)
        (replace_running m t pid dead) dead
        (λ _.
          ((replace_running-Lasting m t dead pid dead (Lasting-refl dead)).1 idx).2
            (dead-mark_dead s))
        (λ _. dead-mark_dead s)

-- Collecting a child that has ended and whose pid is first found at an entry of the table leaves that
-- process TERMINATED, also where another one is resumed in its place.
pub reap-terminated :
    {W D : Type 0} (m : Machine W D) (t : Platform) (pid idx : ℕ) (status : WaitStatus)
    (s : System W D)
    → is_dead status ≡ true
    → find_pid s.process_count 0 pid (λ i. (s.process_table i).pid) ≡ some idx
    → states (reap m t pid status s) idx ≡ terminated
unfolding reap reap_found reap_process clock
reap-terminated {W} {D} m t pid idx status s d e =
    rw (d, e)
      (elim (Bool-cases (is_terminated (states s idx))) [
        | inl gone ↦ rw gone (already (states s idx) gone)
        | inr alive ↦ rw alive (buried m t pid idx paid)
      ])
  where
    already : (st : ProcState) → is_terminated st ≡ true → st ≡ terminated
    already st g = ground arith

    s1 : System W D
    s1 = in_world s (m.clock_gettime s.world).1

    paid : System W D
    paid = if is_current idx s1 then charge m idx (m.clock_gettime s.world).0 s1 else s1
