-- ===== src/Scheduler/Create/Stages.antt =====
-- `scheduler_create_process` of src/scheduler.c as a sequence of steps, one for each time that it waits or asks the kernel
-- for the process, so that a signal can come between them. The last step, from the answer of the second
-- `waitpid` to `process_count++`, is one.
use minios_lab_edwin_jose.Base.{
  ℕ, zero, suc, ◌≡◌, refl, Bool, true, false, Option, none, some, leb, if◌then◌else◌, Bool-cases,
  inl, inr,
}
use minios_lab_edwin_jose.Machine.{
  Machine, CString, WaitStatus, exited, WaitResult, interrupted, failed, not_yet, changed, child,
  blocking, untraced, is_stopped,
}
use minios_lab_edwin_jose.Fifo.{max_processes}
use minios_lab_edwin_jose.Platform.{Platform, uses_ptrace}
use minios_lab_edwin_jose.Scheduler.State.{System, in_world, waitpid}
use minios_lab_edwin_jose.Scheduler.Create.{
  abandon, release, halt, fill_pcb, confirmed, confirm, set_up, awaited, await_exec, forked,
  create_process,
}

-- Where the function stands, with the values of its local variables; `finished` has its result.
pub data Stage : Type 0 where
  entering : CString → Stage
  awaiting : CString → ℕ → Stage
  filling : CString → ℕ → WaitStatus → Stage
  holding : (idx pid : ℕ) → WaitStatus → Stage
  confirming : (idx pid : ℕ) → WaitStatus → Stage
  deciding : (idx pid : ℕ) → WaitStatus → WaitResult → Stage
  finished : Option ℕ → Stage

module _ {W D : Type 0} (m : Machine W D) (t : Platform) where
  -- After `fork`.
  unfoldable pub after_fork : CString → Option ℕ → Stage
  after_fork path none = finished none
  after_fork path (some pid) =
      if uses_ptrace t then awaiting path pid else filling path pid (exited 0)

  -- After the `waitpid` for the stop of the child at its `exec`.
  unfoldable pub after_exec : CString → ℕ → WaitResult → System W D → Stage × System W D
  after_exec path pid (changed wp status) s =
      if is_stopped status then (filling path pid status, s) else (finished none, abandon m t pid s)
  after_exec path pid _ s = (finished none, abandon m t pid s)

  -- One step of the function itself.
  unfoldable pub step : Stage → System W D → Stage × System W D
  step (entering path) s =
      let (pid, w) = m.fork s.world in
      if leb max_processes s.process_count
      then (finished none, s)
      else (after_fork path pid, in_world s w)
  step (awaiting path pid) s =
      let (r, s1) = waitpid m (child pid) blocking s in after_exec path pid r s1
  step (filling path pid stale) s = (holding s.process_count pid stale, fill_pcb m t path pid s)
  step (holding idx pid stale) s =
      let (held, s1) = if uses_ptrace t then release m t idx pid s else halt m t pid s in
      if held then (confirming idx pid stale, s1) else (finished none, s1)
  step (confirming idx pid stale) s =
      let (r, s1) = waitpid m (child pid) untraced s in (deciding idx pid stale r, s1)
  step (deciding idx pid stale r) s =
      let (o, s1) = confirmed m t idx pid stale r s in (finished o, s1)
  step (finished o) s = (finished o, s)

  -- So many steps with no signal between them.
  pub steps : ℕ → Stage × System W D → Stage × System W D
  steps zero x = x
  steps (suc k) (st, s) = steps k (step st s)

module _ {W D : Type 0} (m : Machine W D) (t : Platform) where
  -- The result of the function as a last stage.
  abbrev pub returned : Option ℕ × System W D → Stage × System W D
  returned (o, s) = (finished o, s)

  finished-steps :
      (k : ℕ) (o : Option ℕ) (s : System W D) → steps m t k (finished o, s) ≡ (finished o, s)
  unfolding steps step
  finished-steps zero o s = refl
  finished-steps (suc k) o s = finished-steps k o s

  confirm-steps :
      (k idx pid : ℕ) (stale : WaitStatus) (b : Bool) (s : System W D)
      → steps m t (suc (suc k)) (if b then (confirming idx pid stale, s) else (finished none, s))
        ≡ returned (if b then confirm m t idx pid stale s else (none, s))
  unfolding steps step confirm
  confirm-steps k idx pid stale true s = finished-steps k _ _
  confirm-steps k idx pid stale false s = finished-steps k none s

  set_up-steps :
      (k pid : ℕ) (path : CString) (stale : WaitStatus) (s : System W D)
      → steps m t (suc (suc (suc (suc k)))) (filling path pid stale, s)
        ≡ returned (set_up m t path pid stale s)
  unfolding steps step set_up
  set_up-steps k pid path stale s =
      let s1 = fill_pcb m t path pid s in
      let (held, s2) =
        (if uses_ptrace t then release m t s.process_count pid s1 else halt m t pid s1) in
      confirm-steps k s.process_count pid stale held s2

  awaited-steps :
      (k pid : ℕ) (path : CString) (r : WaitResult) (s : System W D)
      → steps m t (suc (suc (suc (suc k)))) (after_exec m t path pid r s)
        ≡ returned (awaited m t path pid r s)
  unfolding after_exec awaited
  awaited-steps k pid path interrupted s = finished-steps _ _ _
  awaited-steps k pid path failed s = finished-steps _ _ _
  awaited-steps k pid path not_yet s = finished-steps _ _ _
  awaited-steps k pid path (changed wp status) s = elim (Bool-cases (is_stopped status)) [
    | inl e ↦ rw e (set_up-steps k pid path status s)
    | inr e ↦ rw e (finished-steps _ _ _)
  ]

  forked-steps :
      (path : CString) (o : Option ℕ) (s : System W D)
      → steps m t 5 (after_fork m t path o, s) ≡ returned (forked m t path o s)
  unfolding steps step after_fork forked await_exec waitpid
  forked-steps path none s = finished-steps 5 none s
  forked-steps path (some pid) s = elim (Bool-cases (uses_ptrace t)) [
    | inl e ↦ rw e (
        awaited-steps 0 pid path (m.waitpid (child pid) blocking s.world).0
          (in_world s (m.waitpid (child pid) blocking s.world).1))
    | inr e ↦ rw e (set_up-steps 1 pid path (exited 0) s)
  ]

  -- Six steps with no signal between them are `scheduler_create_process`.
  steps-create_process :
      (path : CString) (s : System W D)
      → steps m t 6 (entering path, s) ≡ returned (create_process m t path s)
  unfolding steps step create_process
  steps-create_process path s = elim (Bool-cases (leb max_processes s.process_count)) [
    | inl e ↦ rw e (finished-steps 5 none s)
    | inr e ↦ rw e (forked-steps path (m.fork s.world).0 (in_world s (m.fork s.world).1))
  ]
