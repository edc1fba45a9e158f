-- ===== src/Scheduler/Create/Laws.antt =====
-- What the creation of a process does to the table and the queue, on every path.
use minios_lab_edwin_jose.Base.{
  ℕ, ◌+◌, ◌≤◌, ◌<◌, ◌≡◌, ◌≢◌, refl, sym, ap, subst, ◌∙◌, Bool, true, false, Option, none, some, [],
  ◌∷◌, ◌++◌, leb, if◌then◌else◌, arith, if-rule, Bool-cases, inl, inr, eq-true, eq-false, All-mono,
  Distinct-length,
}
use minios_lab_edwin_jose.Machine.{
  Machine, CString, WaitStatus, WaitResult, interrupted, failed, not_yet, changed, exited,
  is_stopped, child, untraced, blocking,
}
use minios_lab_edwin_jose.Fifo.{max_processes}
use minios_lab_edwin_jose.Pcb.{ready}
use minios_lab_edwin_jose.Platform.{Platform, uses_ptrace}
use minios_lab_edwin_jose.RoundRobin.{IsWaiting, admit}
use minios_lab_edwin_jose.ReadyQueue
use minios_lab_edwin_jose.ReadyQueue.Contents.{IsRing, contents, contents-enqueue, length-contents}
use minios_lab_edwin_jose.Scheduler.State.{System, set_state, in_world, waitpid}
use minios_lab_edwin_jose.Scheduler.View.{states, WellFormed, states-put, IsSane-cast}
use minios_lab_edwin_jose.Scheduler.Create.{
  abandon, count_in, enlist, confirmed, awaited, forked, confirm, release, halt, fill_pcb, set_up,
  await_exec, create_process,
}
use minios_lab_edwin_jose.Scheduler.Create.Kept.{
  Kept, Kept-abandon, release-Kept, halt-Kept, fill_pcb-Kept, either,
}

-- A process was created: it is the next of the table, READY, and the last of the queue; the other
-- entries of the table and the signal mask are as they were. Or none was.
abbrev pub Created : {W D : Type 0} → System W D → Option ℕ → System W D → Type 0
Created s0 none s = Kept s0 s
Created s0 (some idx) s =
    WellFormed s
    × (idx ≡ s0.process_count)
    × (s.process_count ≡ s0.process_count + 1)
    × (contents s.rq ≡ contents s0.rq ++ idx ∷ [])
    × (states s idx ≡ ready)
    × ((j : ℕ) → j ≢ idx → s.process_table j ≡ s0.process_table j)
    × (s.mask ≡ s0.mask)

module _ {W D : Type 0} (m : Machine W D) (t : Platform) where
  enlist-done :
      (idx pid : ℕ) (s : System W D)
      → (ReadyQueue.enqueue idx s.rq).0 ≡ true
      → enlist m t idx pid s ≡ (
        some idx,
        count_in m t idx (record (set_state idx ready s) { rq = (ReadyQueue.enqueue idx s.rq).1 }),
      )
  unfolding enlist
  enlist-done idx pid s e = ground arith

module _ {W D : Type 0} (m : Machine W D) (t : Platform) (s0 : System W D)
    (space : s0.process_count < max_processes) where
  -- There is room in the queue for every process that the table has room for.
  room-enqueue :
      (idx : ℕ) (s : System W D)
      → Kept s0 s
      → let (done, q) = ReadyQueue.enqueue idx s.rq in
        (done ≡ true)
        × (contents q ≡ contents s.rq ++ idx ∷ [])
        × IsRing q
        × (q.count ≡ s.rq.count + 1)
  room-enqueue idx s k = contents-enqueue idx k.0.0 (
      omega (
        arith,
        length-contents s.rq,
        Distinct-length s.process_count (contents s.rq)
            (All-mono (IsWaiting (states s) s.process_count) (λ j. j < s.process_count)
              (contents s.rq) (λ j p. p.0) k.0.1.queue.waiting)
            k.0.1.queue.distinct,
        k.1,
      ))

  count_in-Created :
      (idx : ℕ) (s : System W D)
      → idx ≡ s.process_count
      → Kept s0 s
      → Created s0 (some idx) (
          count_in m t idx
            (record (set_state idx ready s) { rq = (ReadyQueue.enqueue idx s.rq).1 }))
  unfolding count_in
  count_in-Created idx s e k =
      let (done, queued, ring, more) = room-enqueue idx s k in
      (
        IsSane-cast (states-put idx _ s) refl refl
            (ring, rw queued (rw e (admit (omega (arith, k.1)) k.0.1))),
        e ∙ k.1,
        ap (λ n. n + 1) k.1,
        queued ∙ ap (λ q. contents q ++ idx ∷ []) k.2,
        ap (λ f. f idx) (states-put idx _ s) ∙ rw (eq-true idx idx refl) refl,
        λ j miss. rw (eq-false idx j (λ h. miss (sym h))) (k.3 j (λ h. miss (h ∙ sym (e ∙ k.1)))),
        k.4,
      )

  -- Both components of a result at once.
  abbrev Outcome : Option ℕ × System W D → Type 0
  Outcome (r, s) = Created s0 r s

  enlist-Created :
      (idx pid : ℕ) (s : System W D)
      → idx ≡ s.process_count
      → Kept s0 s
      → Outcome (enlist m t idx pid s)
  enlist-Created idx pid s e k =
      subst Outcome (sym (enlist-done m t idx pid s (room-enqueue idx s k).0))
        (count_in-Created idx s e k)

  pub confirmed-Created :
      (idx pid : ℕ) (stale : WaitStatus) (r : WaitResult) (s : System W D)
      → idx ≡ s.process_count
      → Kept s0 s
      → Outcome (confirmed m t idx pid stale r s)
  unfolding confirmed
  confirmed-Created idx pid stale interrupted s e k = Kept-abandon m t s0 pid s k
  confirmed-Created idx pid stale failed s e k = Kept-abandon m t s0 pid s k
  confirmed-Created idx pid stale not_yet s e k =
      if-rule Outcome (is_stopped stale) (enlist m t idx pid s) (none, s)
        (λ _. enlist-Created idx pid s e k) (λ _. k)
  confirmed-Created idx pid stale (changed wp status) s e k =
      if-rule Outcome (is_stopped status) (enlist m t idx pid s) (none, s)
        (λ _. enlist-Created idx pid s e k) (λ _. k)

  -- Steps 5 to 9, given whether the child could be held.
  held-Created :
      (idx pid : ℕ) (stale : WaitStatus) (b : Bool) (s : System W D)
      → idx ≡ s0.process_count
      → Kept s0 s
      → Outcome (if b then confirm m t idx pid stale s else (none, s))
  unfolding confirm waitpid
  held-Created idx pid stale true s e k =
      confirmed-Created idx pid stale (m.waitpid (child pid) untraced s.world).0
        (in_world s (m.waitpid (child pid) untraced s.world).1) (e ∙ sym k.1) k
  held-Created idx pid stale false s e k = k

  set_up-Created :
      (path : CString) (pid : ℕ) (stale : WaitStatus) (s : System W D)
      → Kept s0 s
      → Outcome (set_up m t path pid stale s)
  unfolding set_up
  set_up-Created path pid stale s k =
      let (filled, fresh) = fill_pcb-Kept m t s0 path pid s k in
      let s1 = fill_pcb m t path pid s in
      let idx = s.process_count in
      let held = (if uses_ptrace t then release m t idx pid s1 else halt m t pid s1) in
      held-Created idx pid stale held.0 held.1 k.1 (
        either m t s0 (uses_ptrace t) (release m t idx pid s1) (halt m t pid s1)
          (release-Kept m t s0 idx pid s1 (k.1 ∙ sym filled.1) (λ e. cc fresh) filled)
          (halt-Kept m t s0 pid s1 filled))

  awaited-Created :
      (path : CString) (pid : ℕ) (r : WaitResult) (s : System W D)
      → Kept s0 s
      → Outcome (awaited m t path pid r s)
  unfolding awaited
  awaited-Created path pid interrupted s k = Kept-abandon m t s0 pid s k
  awaited-Created path pid failed s k = Kept-abandon m t s0 pid s k
  awaited-Created path pid not_yet s k = Kept-abandon m t s0 pid s k
  awaited-Created path pid (changed wp status) s k =
      if-rule Outcome (is_stopped status) (set_up m t path pid status s) (none, abandon m t pid s)
        (λ _. set_up-Created path pid status s k) (λ _. Kept-abandon m t s0 pid s k)

  forked-Created :
      (path : CString) (o : Option ℕ) (s : System W D) → Kept s0 s → Outcome (forked m t path o s)
  unfolding forked await_exec waitpid
  forked-Created path none s k = k
  forked-Created path (some pid) s k =
      if-rule Outcome (uses_ptrace t) (await_exec m t path pid s) (set_up m t path pid (exited 0) s)
        (λ _.
          awaited-Created path pid (m.waitpid (child pid) blocking s.world).0
            (in_world s (m.waitpid (child pid) blocking s.world).1) k)
        (λ _. set_up-Created path pid (exited 0) s k)

-- Whatever the kernel answers, `scheduler_create_process` leaves a well-formed system. Where it
-- returns an index that is the old `process_count`: the table has one process more, READY and last in
-- the queue. Where it returns -1 the table has as many processes as before and the queue is the same.
-- In both cases no entry but the one behind the old table has changed, nor has the signal mask.
pub create_process-Created :
    {W D : Type 0} (m : Machine W D) (t : Platform) (path : CString) (s : System W D)
    → WellFormed s
    → let (r, s') = create_process m t path s in Created s r s'
unfolding create_process
create_process-Created m t path s h = elim (Bool-cases (leb max_processes s.process_count)) [
  | inl full ↦ rw full (h, refl, refl, (λ j _. refl), refl)
  | inr space ↦ rw space (
      forked-Created m t s (ground arith) path (m.fork s.world).0 (in_world s (m.fork s.world).1)
        (h, refl, refl, (λ j _. refl), refl))
]

-- A full table is refused before anything is done.
pub create_process-full :
    {W D : Type 0} (m : Machine W D) (t : Platform) (path : CString) (s : System W D)
    → max_processes ≤ s.process_count
    → create_process m t path s ≡ (none, s)
unfolding create_process
create_process-full m t path s h = ground arith
