-- ===== src/Scheduler/Create/Exclusive.antt =====
-- Which processes may be awake while `scheduler_create_process` runs, and after it.
use minios_lab_edwin_jose.Base.{
  ℕ, ◌≤◌, ◌<◌, ◌≡◌, ◌≢◌, refl, sym, subst, Bool, true, false, Option, none, some, if◌then◌else◌,
  arith, if-rule, eq-true,
}
use minios_lab_edwin_jose.Machine.{
  Machine, CString, WaitStatus, WaitResult, interrupted, failed, not_yet, changed, exited,
  is_stopped, child, untraced, blocking,
}
use minios_lab_edwin_jose.Pcb.{ready, c_string}
use minios_lab_edwin_jose.Pcb.Laws.{init-fresh, init-world}
use minios_lab_edwin_jose.Platform
use minios_lab_edwin_jose.Platform.{Platform, uses_ptrace}
use minios_lab_edwin_jose.Platform.Laws.{stop_process-kill, detach-world, get_registers-world}
use minios_lab_edwin_jose.Monitor
use minios_lab_edwin_jose.Monitor.Keeps.{emit_created-Keeps}
use minios_lab_edwin_jose.ReadyQueue
use minios_lab_edwin_jose.Scheduler.State.{System, set_state, in_world, kill, waitpid}
use minios_lab_edwin_jose.Scheduler.Exclusive.{
  Stops, Calm, Lull, CalmBut, Calm-refl, Calm-But, Stops-Keeps,
}
use minios_lab_edwin_jose.Scheduler.Create.{
  abandon, count_in, enlist, confirmed, awaited, forked, confirm, sample, release, halt, fill_pcb,
  set_up, await_exec,
}

module _ {W D : Type 0} (m : Machine W D) (t : Platform) (awake : W → ℕ → Bool) (fresh : W → ℕ)
    (law : Stops m awake fresh) (w0 : W) where
  -- Of the processes that there were at the beginning none has been woken, and `pid` has come since.
  abbrev pub Around : ℕ → W → Type 0
  Around pid w = Lull awake fresh w0 w × (fresh w0 ≤ pid) × (pid < fresh w)

  abbrev Held : ℕ → ℕ → System W D → Type 0
  Held idx pid s = Around pid s.world × ((s.process_table idx).pid ≡ pid)

  -- The new process is not awake.
  abbrev pub Ends : Option ℕ × System W D → Type 0
  Ends (none, s) = Lull awake fresh w0 s.world
  Ends (some idx, s) =
      Around (s.process_table idx).pid s.world × (awake s.world (s.process_table idx).pid ≡ false)

  Around-CalmBut :
      (pid : ℕ) (w w' : W) → CalmBut awake fresh pid w w' → Around pid w → Around pid w'
  Around-CalmBut pid w w' (calm, le) ((still, more), since, given) = (
    (
      λ p lt e. calm p (λ h. absurd (omega (arith, h, lt, since))) (still p lt e),
      omega (arith, le, more),
    ),
    since,
    omega (arith, given, le),
  )

  Around-Calm : (pid : ℕ) (w w' : W) → Calm awake fresh w w' → Around pid w → Around pid w'
  Around-Calm pid w w' c = Around-CalmBut pid w w' (Calm-But awake fresh pid w w' c)

  abandon-Lull :
      (pid : ℕ) (s : System W D)
      → Around pid s.world
      → Lull awake fresh w0 (abandon m t pid s).world
  unfolding abandon kill waitpid
  abandon-Lull pid s a =
      (Around-Calm pid _ _ (law.waitpid_calm _ _ _)
        (Around-Calm pid _ _ (law.sigkill_calm pid s.world) a)).0

  count_in-Ends :
      (idx pid : ℕ) (s : System W D)
      → Held idx pid s
      → awake s.world pid ≡ false
      → Ends (some idx, count_in m t idx s)
  unfolding count_in
  count_in-Ends idx pid s (a, e) still =
      let p = s.process_table idx in
      let w = (Monitor.emit_created m p.pid (c_string p.name) s.monitor s.world).1 in
      let c =
        emit_created-Keeps m _ (Stops-Keeps m awake fresh law s.world) p.pid (c_string p.name)
          s.monitor s.world (Calm-refl m awake fresh law s.world) in
      subst (λ x. Around x w × (awake w x ≡ false)) (sym e)
        (Around-Calm pid s.world w c a, c.0 pid still)

  enlist-Ends :
      (idx pid : ℕ) (s : System W D)
      → Held idx pid s
      → awake s.world pid ≡ false
      → Ends (enlist m t idx pid s)
  unfolding enlist
  enlist-Ends idx pid s (a, e) still =
      let (done, q) = ReadyQueue.enqueue idx s.rq in
      let s2 = record (set_state idx ready s) { rq = q } in
      if-rule Ends done (some idx, count_in m t idx s2) _
        (λ _. count_in-Ends idx pid s2 (a, rw (eq-true idx idx refl) e) still)
        (λ _. abandon-Lull pid s2 a)

  confirmed-Ends :
      (idx pid : ℕ) (stale : WaitStatus) (r : WaitResult) (s : System W D)
      → Held idx pid s
      → (r ≢ interrupted → awake s.world pid ≡ false)
      → Ends (confirmed m t idx pid stale r s)
  unfolding confirmed
  confirmed-Ends idx pid stale interrupted s h still = abandon-Lull pid s h.0
  confirmed-Ends idx pid stale failed s h still = abandon-Lull pid s h.0
  confirmed-Ends idx pid stale not_yet s h still =
      if-rule Ends (is_stopped stale) (enlist m t idx pid s) (none, s)
        (λ _. enlist-Ends idx pid s h (still (λ e. cc))) (λ _. h.0.0)
  confirmed-Ends idx pid stale (changed wp status) s h still =
      if-rule Ends (is_stopped status) (enlist m t idx pid s) (none, s)
        (λ _. enlist-Ends idx pid s h (still (λ e. cc))) (λ _. h.0.0)

  confirm-Ends :
      (idx pid : ℕ) (stale : WaitStatus) (s : System W D)
      → Held idx pid s
      → Ends (confirm m t idx pid stale s)
  unfolding confirm waitpid
  confirm-Ends idx pid stale s (a, e) =
      let (r, w) = m.waitpid (child pid) untraced s.world in
      confirmed-Ends idx pid stale r (in_world s w)
        (Around-Calm pid s.world w (law.waitpid_calm (child pid) untraced s.world) a, e)
        (law.waitpid_untraced pid s.world)

  -- Steps 6 and 7: the child is held, or abandoned.
  abbrev Secured : ℕ → ℕ → Bool × System W D → Type 0
  Secured idx pid (true, s) = Held idx pid s
  Secured idx pid (false, s) = Lull awake fresh w0 s.world

  stop_process-Around :
      (pid : ℕ) (w : W) → Around pid w → Around pid (Platform.stop_process m t pid w).1
  stop_process-Around pid w a =
      rw (stop_process-kill m t pid w) (Around-Calm pid w _ (law.sigstop_calm pid w) a)

  detach-Around : (pid : ℕ) (w : W) → Around pid w → Around pid (Platform.detach m t pid w).1
  detach-Around pid w a =
      detach-world m t pid (Around pid) w a
        (Around-CalmBut pid w _ (law.ptrace_detach_calm pid 0 w) a)

  sample-Held :
      (idx pid : ℕ) (s : System W D) → Held idx pid s → Held idx pid (sample m t idx pid s)
  unfolding sample
  sample-Held idx pid s (a, e) = (
    get_registers-world m t pid (s.process_table idx).registers (Around pid) s.world a
        (Around-Calm pid s.world _ (law.ptrace_getregs_calm pid s.world) a),
    rw (eq-true idx idx refl) e,
  )

  halt-Secured : (idx pid : ℕ) (s : System W D) → Held idx pid s → Secured idx pid (halt m t pid s)
  unfolding halt
  halt-Secured idx pid s (a, e) =
      let (halted, w) = Platform.stop_process m t pid s.world in
      let b = stop_process-Around pid s.world a in
      if-rule (Secured idx pid) halted (true, in_world s w) _ (λ _. (b, e))
        (λ _. abandon-Lull pid (in_world s w) b)

  release-Secured :
      (idx pid : ℕ) (s : System W D) → Held idx pid s → Secured idx pid (release m t idx pid s)
  unfolding release
  release-Secured idx pid s h =
      let s1 = sample m t idx pid s in
      let (a, e) = sample-Held idx pid s h in
      let (halted, w2) = Platform.stop_process m t pid s1.world in
      let (detached, w3) = Platform.detach m t pid w2 in
      let b = stop_process-Around pid s1.world a in
      let c = detach-Around pid w2 b in
      if-rule (Secured idx pid) halted _ _
        (λ _.
          if-rule (Secured idx pid) detached (true, in_world s1 w3) _ (λ _. (c, e))
            (λ _. abandon-Lull pid (in_world s1 w3) c))
        (λ _. abandon-Lull pid (in_world s1 w2) b)

  fill_pcb-Held :
      (path : CString) (pid : ℕ) (s : System W D)
      → Around pid s.world
      → Held s.process_count pid (fill_pcb m t path pid s)
  unfolding fill_pcb
  fill_pcb-Held path pid s a =
      let b = Around-Calm pid s.world _ (law.strdup_calm path s.world) a in
      let w = (m.strdup path s.world).1 in
      let name = (if (m.strdup path s.world).0 then m.basename path else path) in
      (
        rw (init-world m pid name w) (Around-Calm pid w _ (law.clock_gettime_calm w) b),
        rw (eq-true s.process_count s.process_count refl) (init-fresh m pid name w).0,
      )

  set_up-Ends :
      (path : CString) (pid : ℕ) (stale : WaitStatus) (s : System W D)
      → Around pid s.world
      → Ends (set_up m t path pid stale s)
  unfolding set_up
  set_up-Ends path pid stale s a =
      let idx = s.process_count in
      let s1 = fill_pcb m t path pid s in
      let h = fill_pcb-Held path pid s a in
      let (held, s2) = (if uses_ptrace t then release m t idx pid s1 else halt m t pid s1) in
      secured idx held s2 (
        if-rule (Secured idx pid) (uses_ptrace t) (release m t idx pid s1) (halt m t pid s1)
          (λ _. release-Secured idx pid s1 h) (λ _. halt-Secured idx pid s1 h))
    where
      secured :
          (idx : ℕ) (b : Bool) (s2 : System W D)
          → Secured idx pid (b, s2)
          → Ends (if b then confirm m t idx pid stale s2 else (none, s2))
      secured idx true s2 h = confirm-Ends idx pid stale s2 h
      secured idx false s2 h = h

  awaited-Ends :
      (path : CString) (pid : ℕ) (r : WaitResult) (s : System W D)
      → Around pid s.world
      → Ends (awaited m t path pid r s)
  unfolding awaited
  awaited-Ends path pid interrupted s a = abandon-Lull pid s a
  awaited-Ends path pid failed s a = abandon-Lull pid s a
  awaited-Ends path pid not_yet s a = abandon-Lull pid s a
  awaited-Ends path pid (changed wp status) s a =
      if-rule Ends (is_stopped status) (set_up m t path pid status s) (none, abandon m t pid s)
        (λ _. set_up-Ends path pid status s a) (λ _. abandon-Lull pid s a)

  pub forked-Ends :
      (path : CString) (pid : ℕ) (s : System W D)
      → Around pid s.world
      → Ends (forked m t path (some pid) s)
  unfolding forked await_exec waitpid
  forked-Ends path pid s a =
      if-rule Ends (uses_ptrace t) (await_exec m t path pid s) (set_up m t path pid (exited 0) s)
        (λ _.
          awaited-Ends path pid (m.waitpid (child pid) blocking s.world).0
            (in_world s (m.waitpid (child pid) blocking s.world).1)
            (Around-Calm pid s.world _ (law.waitpid_calm (child pid) blocking s.world) a))
        (λ _. set_up-Ends path pid (exited 0) s a)
