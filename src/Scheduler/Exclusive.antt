-- ===== src/Scheduler/Exclusive.antt =====
-- Which processes the kernel may give the processor to, and the condition that src/scheduler.c keeps
-- them in: all but the running one are stopped or gone.
use minios_lab_edwin_jose.Base.{
  ℕ, ◌≤◌, ◌<◌, ◌≡◌, ◌≢◌, refl, sym, ap, subst, ◌∙◌, Bool, true, false, some, List, arith, eq-cases,
  eq-true, eq-false, inl, inr,
}
use minios_lab_edwin_jose.Machine.{
  Machine, sigkill, sigstop, sigcont, WaitTarget, any_child, child, WaitFlags, untraced, nohang,
  WaitStatus, interrupted, changed, is_dead, Itimerval, CString,
}
use minios_lab_edwin_jose.Pcb.{Pcb, running}
use minios_lab_edwin_jose.Monitor
use minios_lab_edwin_jose.Monitor.Keeps.{Keeps, emit_terminated-Keeps, emit_switch-Keeps}
use minios_lab_edwin_jose.Base.Int.{ℤ}
use minios_lab_edwin_jose.Scheduler.State.{System, put, in_world, emit_terminated}

module _ {W : Type 0} (awake : W → ℕ → Bool) (fresh : W → ℕ) where
  -- Nothing that was not awake is awake.
  abbrev pub Calm : W → W → Type 0
  Calm w w' = ((p : ℕ) → awake w p ≡ false → awake w' p ≡ false) × (fresh w ≤ fresh w')

  -- Nothing else.
  abbrev pub CalmBut : ℕ → W → W → Type 0
  CalmBut pid w w' =
      ((p : ℕ) → p ≢ pid → awake w p ≡ false → awake w' p ≡ false) × (fresh w ≤ fresh w')

  -- Of the processes that there have been, nothing that was not awake is awake.
  abbrev pub Lull : W → W → Type 0
  Lull w w' =
      ((p : ℕ) → p < fresh w → awake w p ≡ false → awake w' p ≡ false) × (fresh w ≤ fresh w')

  pub Calm-trans : (w0 w1 w2 : W) → Calm w0 w1 → Calm w1 w2 → Calm w0 w2
  Calm-trans w0 w1 w2 (a, n) (b, k) = (λ p e. b p (a p e), omega (arith, n, k))

  pub Calm-But : (pid : ℕ) (w w' : W) → Calm w w' → CalmBut pid w w'
  Calm-But pid w w' (a, n) = (λ p ne e. a p e, n)

-- `awake` tells the processes that are neither stopped nor ended, and `fresh` is above the pids that have been
-- given out so far. Only SIGCONT, the end of tracing and `fork` can make a process awake, and each only its
-- own; SIGCONT that cannot be sent does not. A wait for a stop that returns without an interruption has
-- found the process stopped or ended, or there is none; a child that `waitpid` reports to have ended is not
-- awake. `fork` may give the pid of a process that has ended and been waited for.
pub record Stops {W D : Type 0} (m : Machine W D) (awake : W → ℕ → Bool) (fresh : W → ℕ)
    : Type 0 where
  pub fork_calm :
      (w : W) (p : ℕ) → (m.fork w).0 ≢ some p → awake w p ≡ false → awake (m.fork w).1 p ≡ false
  pub fork_more : (w : W) → fresh w ≤ fresh (m.fork w).1
  pub fork_given : (w : W) (pid : ℕ) → (m.fork w).0 ≡ some pid → pid < fresh (m.fork w).1
  pub sigstop_calm : (pid : ℕ) (w : W) → Calm awake fresh w (m.kill pid sigstop w).1
  pub sigkill_calm : (pid : ℕ) (w : W) → Calm awake fresh w (m.kill pid sigkill w).1
  pub sigcont_calm : (pid : ℕ) (w : W) → CalmBut awake fresh pid w (m.kill pid sigcont w).1
  pub sigcont_failed :
      (pid : ℕ) (w : W)
      → (m.kill pid sigcont w).0 ≡ false
      → Calm awake fresh w (m.kill pid sigcont w).1
  pub waitpid_calm :
      (target : WaitTarget) (flags : WaitFlags) (w : W)
      → Calm awake fresh w (m.waitpid target flags w).1
  pub waitpid_untraced :
      (pid : ℕ) (w : W)
      → (m.waitpid (child pid) untraced w).0 ≢ interrupted
      → awake (m.waitpid (child pid) untraced w).1 pid ≡ false
  pub waitpid_dead :
      (pid : ℕ) (status : WaitStatus) (w : W)
      → (m.waitpid any_child nohang w).0 ≡ changed pid status
      → is_dead status ≡ true
      → awake (m.waitpid any_child nohang w).1 pid ≡ false
  pub ptrace_detach_calm :
      (pid sig : ℕ) (w : W) → CalmBut awake fresh pid w (m.ptrace_detach pid sig w).1
  pub ptrace_getregs_calm : (pid : ℕ) (w : W) → Calm awake fresh w (m.ptrace_getregs pid w).1
  pub clock_gettime_calm : (w : W) → Calm awake fresh w (m.clock_gettime w).1
  pub setitimer_calm : (v : Itimerval) (w : W) → Calm awake fresh w (m.setitimer v w)
  pub socket_calm : (w : W) → Calm awake fresh w (m.socket w).1
  pub connect_calm : (fd : ℕ) (path : CString) (w : W) → Calm awake fresh w (m.connect fd path w).1
  pub set_nonblock_calm : (fd : ℕ) (w : W) → Calm awake fresh w (m.set_nonblock fd w)
  pub write_calm : (fd : ℕ) (bytes : List ℕ) (w : W) → Calm awake fresh w (m.write fd bytes w).1
  pub close_calm : (fd : ℕ) (w : W) → Calm awake fresh w (m.close fd w)
  pub access_calm : (path : CString) (w : W) → Calm awake fresh w (m.access path w).1
  pub unlink_calm : (path : CString) (w : W) → Calm awake fresh w (m.unlink path w)
  pub strdup_calm : (path : CString) (w : W) → Calm awake fresh w (m.strdup path w).1

-- A `fork` in the world `w` gives no pid that has been given out before: the kernel's pids have not begun again
-- from below.
abbrev pub IsNew : {W D : Type 0} → Machine W D → (fresh : W → ℕ) → W → Type 0
IsNew m fresh w = (pid : ℕ) → (m.fork w).0 ≡ some pid → fresh w ≤ pid

module _ {W D : Type 0} (awake : W → ℕ → Bool) (fresh : W → ℕ) where
  -- The pids of the table have been given out, no two processes share one, and those that are not RUNNING are
  -- not awake.
  abbrev pub Quiet : System W D → Type 0
  Quiet s =
      ((i : ℕ) → i < s.process_count → (s.process_table i).pid < fresh s.world)
      × ((i j : ℕ)
          → i < s.process_count
          → j < s.process_count
          → (s.process_table i).pid ≡ (s.process_table j).pid
          → i ≡ j)
      × ((i : ℕ)
          → i < s.process_count
          → (s.process_table i).state ≢ running
          → awake s.world (s.process_table i).pid ≡ false)

  pub Quiet-Lull :
      (s : System W D) (w : W) → Lull awake fresh s.world w → Quiet s → Quiet (in_world s w)
  Quiet-Lull s w (calm, le) (given, apart, still) = (
    λ i lt. omega (arith, given i lt, le),
    apart,
    λ i lt ne. calm (s.process_table i).pid (given i lt) (still i lt ne),
  )

  pub Quiet-world :
      (s : System W D) (w : W) → Calm awake fresh s.world w → Quiet s → Quiet (in_world s w)
  Quiet-world s w (calm, le) = Quiet-Lull s w (λ p lt e. calm p e, le)

  -- A call that may wake the process `c`, which is RUNNING.
  pub Quiet-woken :
      (c : ℕ) (s : System W D) (w : W)
      → c < s.process_count
      → (s.process_table c).state ≡ running
      → CalmBut awake fresh (s.process_table c).pid s.world w
      → Quiet s
      → Quiet (in_world s w)
  Quiet-woken c s w inside runs (calm, le) (given, apart, still) = (
    λ i lt. omega (arith, given i lt, le),
    apart,
    λ i lt ne.
        calm (s.process_table i).pid
          (λ e. ne (ap (λ x. (s.process_table x).state) (apart i c lt inside e) ∙ runs))
          (still i lt ne),
  )

  -- A table with the same pids and states.
  pub Quiet-same :
      (s s' : System W D)
      → s'.process_count ≡ s.process_count
      → s'.world ≡ s.world
      → ((j : ℕ) → (s'.process_table j).pid ≡ (s.process_table j).pid)
      → ((j : ℕ) → (s'.process_table j).state ≡ (s.process_table j).state)
      → Quiet s
      → Quiet s'
  Quiet-same s s' en ew pids sts (given, apart, still) = (
    λ i lt. rw (pids i, ew) (given i (rw en at lt)),
    λ i j lt lt' e. apart i j (rw en at lt) (rw en at lt') (sym (pids i) ∙ (e ∙ pids j)),
    λ i lt ne. rw (pids i, ew) (still i (rw en at lt) (λ r. ne (sts i ∙ r))),
  )

  -- A write of the entry of the same process, which is RUNNING or not awake.
  pub Quiet-put :
      (i : ℕ) (p : Pcb D) (s : System W D)
      → p.pid ≡ (s.process_table i).pid
      → (i < s.process_count → p.state ≢ running → awake s.world p.pid ≡ false)
      → Quiet s
      → Quiet (put i p s)
  Quiet-put i p s same asleep (given, apart, still) = (
    λ j lt. rw (pids j) (given j lt),
    λ j k lt lt' e. apart j k lt lt' (sym (pids j) ∙ (e ∙ pids k)),
    λ j lt ne. elim (eq-cases i j) [
      | inl hit ↦
          ap (λ q. awake s.world q.pid) (here j hit)
          ∙ asleep (subst (λ x. x < s.process_count) (sym hit) lt)
              (λ r. ne (ap (λ q. q.state) (here j hit) ∙ r))
      | inr miss ↦
          ap (λ q. awake s.world q.pid) (there j miss)
          ∙ still j lt (λ r. ne (ap (λ q. q.state) (there j miss) ∙ r))
    ],
  )
    where
      here : (j : ℕ) → i ≡ j → (put i p s).process_table j ≡ p
      here j hit = rw (eq-true i j hit) refl

      there : (j : ℕ) → i ≢ j → (put i p s).process_table j ≡ s.process_table j
      there j miss = rw (eq-false i j miss) refl

      pids : (j : ℕ) → ((put i p s).process_table j).pid ≡ (s.process_table j).pid
      pids j = elim (eq-cases i j) [
        | inl hit ↦ ap (λ q. q.pid) (here j hit) ∙ (same ∙ ap (λ x. (s.process_table x).pid) hit)
        | inr miss ↦ ap (λ q. q.pid) (there j miss)
      ]

module _ {W D : Type 0} (m : Machine W D) (awake : W → ℕ → Bool) (fresh : W → ℕ)
    (law : Stops m awake fresh) where
  pub Stops-Keeps : (w0 : W) → Keeps m (Calm awake fresh w0)
  Stops-Keeps w0 = record {
    on_clock_gettime = λ w h. Calm-trans awake fresh w0 w _ h (law.clock_gettime_calm w);
    on_setitimer = λ v w h. Calm-trans awake fresh w0 w _ h (law.setitimer_calm v w);
    on_socket = λ w h. Calm-trans awake fresh w0 w _ h (law.socket_calm w);
    on_connect = λ fd path w h. Calm-trans awake fresh w0 w _ h (law.connect_calm fd path w);
    on_set_nonblock = λ fd w h. Calm-trans awake fresh w0 w _ h (law.set_nonblock_calm fd w);
    on_write = λ fd bytes w h. Calm-trans awake fresh w0 w _ h (law.write_calm fd bytes w);
    on_close = λ fd w h. Calm-trans awake fresh w0 w _ h (law.close_calm fd w);
  }

  pub Calm-refl : (w : W) → Calm awake fresh w w
  Calm-refl w = (λ p e. e, omega arith)

  -- The calls of the monitor, and the time.
  pub emit_terminated-Quiet :
      (pid : ℕ) (cpu_ms : D) (switches : ℕ) (s : System W D)
      → Quiet awake fresh s
      → Quiet awake fresh (emit_terminated m pid cpu_ms switches s)
  unfolding emit_terminated
  emit_terminated-Quiet pid cpu_ms switches s = Quiet-world awake fresh s _ (
      emit_terminated-Keeps m _ (Stops-Keeps s.world) pid cpu_ms switches s.monitor s.world
        (Calm-refl s.world))

  pub emit_switch-Quiet :
      (from_pid to_pid : ℕ) (slice_ms : ℤ) (s : System W D)
      → Quiet awake fresh s
      → Quiet awake fresh
          (in_world s (Monitor.emit_switch m from_pid to_pid slice_ms s.monitor s.world).1)
  emit_switch-Quiet from_pid to_pid slice_ms s = Quiet-world awake fresh s _ (
      emit_switch-Keeps m _ (Stops-Keeps s.world) from_pid to_pid slice_ms s.monitor s.world
        (Calm-refl s.world))
