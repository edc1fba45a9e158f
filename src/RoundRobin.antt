-- ===== src/RoundRobin.antt =====
-- The scheduler of src/scheduler.c seen from outside: the state of each process of the table, the
-- indices that wait, oldest first, the one that runs, and what each event may do to these.
pub mod Policy
pub mod Order
use minios_lab_edwin_jose.Base.{
  ℕ, ◌+◌, ◌≤◌, ◌<◌, ◌≡◌, ◌≢◌, refl, sym, ap, ◌∙◌, Bool, true, false, Option, none, some, List, [],
  ◌∷◌, ◌++◌, update, is_some, arith, length, All, All-append, All-mono, All-both, All-without,
  Absent, some-eq-some, Distinct, Distinct-snoc, Distinct-without, Distinct-length, without,
  eq-true, eq-false, eq-cases, inl, inr,
}
use minios_lab_edwin_jose.Fifo.{max_processes}
use minios_lab_edwin_jose.Pcb.{ProcState, ready, running, terminated}

abbrev pub IsWaiting : (ℕ → ProcState) → ℕ → ℕ → Type 0
IsWaiting st n i = (i < n) × (st i ≡ ready)

-- The table fits its array, and the queue holds READY processes of the table, none of them twice.
pub record IsQueue (st : ℕ → ProcState) (n : ℕ) (q : List ℕ) : Type 0 where
  pub fits : n ≤ max_processes
  pub waiting : All (IsWaiting st n) q
  pub distinct : Distinct q

-- The same while no process runs, as in the middle of a switch.
pub record IsBetween (st : ℕ → ProcState) (n : ℕ) (q : List ℕ) : Type 0 where
  pub queue : IsQueue st n q
  pub none_running : (j : ℕ) → st j ≢ running

-- Between two events: `cur` is the one RUNNING process, and the scheduler is active just when there
-- is one.
pub record IsSane (st : ℕ → ProcState) (n : ℕ) (q : List ℕ) (cur : Option ℕ) (act : Bool)
    : Type 0 where
  pub queue : IsQueue st n q
  pub current : (j : ℕ) → cur ≡ some j → (j < n) × (st j ≡ running)
  pub only : (j : ℕ) → st j ≡ running → cur ≡ some j
  pub active : act ≡ is_some cur

none_running-update :
    (st : ℕ → ProcState) (i : ℕ) (v : ProcState)
    → v ≢ running
    → ((j : ℕ) → j ≢ i → st j ≢ running)
    → (j : ℕ) → update st i v j ≢ running
none_running-update st i v h k j e = elim (eq-cases i j) [
  | inl hit ↦ h (rw (eq-true i j hit) at e)
  | inr miss ↦ k j (λ p. miss (sym p)) (rw (eq-false i j miss) at e)
]

module _ (st : ℕ → ProcState) (n : ℕ) where
  -- What is not READY is not in the queue.
  pub Absent-queue : (i : ℕ) (q : List ℕ) → All (IsWaiting st n) q → st i ≢ ready → Absent i q
  Absent-queue i q w h =
      All-mono (IsWaiting st n) (λ j. j ≢ i) q (λ j p e. h (ap st (sym e) ∙ p.1)) w

  -- A change of the state of a process that is not queued.
  pub IsQueue-update :
      (i : ℕ) (v : ProcState) (q : List ℕ)
      → Absent i q
      → IsQueue st n q
      → IsQueue (update st i v) n q
  IsQueue-update i v q ab h = record {
    fits = h.fits;
    waiting =
        All-mono (λ j. (j ≢ i) × IsWaiting st n j) (IsWaiting (update st i v) n) q
          (λ j p. (p.1.0, rw (eq-false i j (λ e. p.0 (sym e))) p.1.1))
          (All-both (λ j. j ≢ i) (IsWaiting st n) q ab h.waiting);
    distinct = h.distinct;
  }

  pub IsQueue-tail : {i : ℕ} {q : List ℕ} → IsQueue st n (i ∷ q) → IsQueue st n q
  IsQueue-tail h = record { fits = h.fits; waiting = h.waiting.1; distinct = h.distinct.1 }

  -- A queue with a process left out of it that may have changed its state.
  pub IsQueue-without :
      (i : ℕ) (v : ProcState) (q : List ℕ)
      → IsQueue st n q
      → IsQueue (update st i v) n (without i q)
  IsQueue-without i v q h = record {
    fits = h.fits;
    waiting =
        All-mono (λ j. (j ≢ i) × IsWaiting st n j) (IsWaiting (update st i v) n) (without i q)
          (λ j p. (p.1.0, rw (eq-false i j (λ e. p.0 (sym e))) p.1.1))
          (All-without (IsWaiting st n) i q h.waiting);
    distinct = Distinct-without i q h.distinct;
  }

  -- A process that is not queued goes to the end, marked READY.
  pub IsQueue-snoc :
      (i : ℕ) (q : List ℕ)
      → i < n
      → Absent i q
      → IsQueue st n q
      → IsQueue (update st i ready) n (q ++ i ∷ [])
  IsQueue-snoc i q lt ab h = record {
    fits = h.fits;
    waiting =
        All-append (IsWaiting (update st i ready) n) q (i ∷ [])
          (IsQueue-update i ready q ab h).waiting ((lt, rw (eq-true i i refl) refl), tt);
    distinct = Distinct-snoc i q ab h.distinct;
  }

  -- There is always room for a process that is not queued.
  pub room : (i : ℕ) (q : List ℕ) → i < n → Absent i q → IsQueue st n q → length q < max_processes
  room i q lt ab h = omega (
    arith,
    Distinct-length n (i ∷ q) (lt, All-mono (IsWaiting st n) (λ j. j < n) q (λ j p. p.0) h.waiting)
        (ab, h.distinct),
    h.fits,
  )

module _ {st : ℕ → ProcState} {n : ℕ} where
  -- The oldest process is given the processor.
  pub take_next :
      {i : ℕ} {q : List ℕ} → IsBetween st n (i ∷ q) → IsSane (update st i running) n q (some i) true
  take_next {i} {q} h = record {
    queue = IsQueue-update st n i running q h.queue.distinct.0 (IsQueue-tail st n h.queue);
    current = λ j e. rw (sym (some-eq-some e)) (h.queue.waiting.0.0, rw (eq-true i i refl) refl);
    only = λ j e. elim (eq-cases i j) [
      | inl hit ↦ ap some hit
      | inr miss ↦ absurd (h.none_running j (rw (eq-false i j miss) at e))
    ];
    active = refl;
  }

  -- The oldest process cannot be resumed, and is given up.
  pub give_up :
      {i : ℕ} {q : List ℕ} → IsBetween st n (i ∷ q) → IsBetween (update st i terminated) n q
  give_up {i} {q} h = record {
    queue = IsQueue-update st n i terminated q h.queue.distinct.0 (IsQueue-tail st n h.queue);
    none_running = none_running-update st i terminated (λ e. cc) (λ j _. h.none_running j);
  }

  -- The oldest process cannot be started, and goes to the end.
  pub put_back :
      {i : ℕ} {q : List ℕ} → IsBetween st n (i ∷ q) → IsBetween (update st i ready) n (q ++ i ∷ [])
  put_back {i} {q} h = record {
    queue =
        IsQueue-snoc st n i q h.queue.waiting.0.0 h.queue.distinct.0 (IsQueue-tail st n h.queue);
    none_running = none_running-update st i ready (λ e. cc) (λ j _. h.none_running j);
  }

  -- Nothing is left to run.
  pub rest : {q : List ℕ} → IsBetween st n q → IsSane st n q none false
  rest h = record {
    queue = h.queue;
    current = λ j e. cc;
    only = λ j e. absurd (h.none_running j e);
    active = refl;
  }

  module _ {q : List ℕ} {act : Bool} where
    pub current-Absent : {i : ℕ} → IsSane st n q (some i) act → Absent i q
    current-Absent {i} h = Absent-queue st n i q h.queue.waiting (λ e. cc ((h.current i refl).1))

    others_idle : {i : ℕ} → IsSane st n q (some i) act → (j : ℕ) → j ≢ i → st j ≢ running
    others_idle {i} h j ne e = ne (some-eq-some (sym (h.only j e)))

    -- The running process is put back.
    pub requeue :
        {i : ℕ} → IsSane st n q (some i) act → IsBetween (update st i ready) n (q ++ i ∷ [])
    requeue {i} h = record {
      queue = IsQueue-snoc st n i q (h.current i refl).0 (current-Absent h) h.queue;
      none_running = none_running-update st i ready (λ e. cc) (others_idle h);
    }

    -- The running process has ended.
    pub end_current : {i : ℕ} → IsSane st n q (some i) act → IsBetween (update st i terminated) n q
    end_current {i} h = record {
      queue = IsQueue-update st n i terminated q (current-Absent h) h.queue;
      none_running = none_running-update st i terminated (λ e. cc) (others_idle h);
    }

    pub between : IsSane st n q none act → IsBetween st n q
    between h = record { queue = h.queue; none_running = λ j e. cc (h.only j e) }

  -- A process that is not the running one has ended, or is taken out of the queue.
  pub end_other :
      {q : List ℕ} {cur : Option ℕ} {act : Bool} (i : ℕ)
      → cur ≢ some i
      → IsSane st n q cur act
      → IsSane (update st i terminated) n (without i q) cur act
  end_other {q} {cur} {act} i ne h = record {
    queue = IsQueue-without st n i terminated q h.queue;
    current = λ j e.
        let p = h.current j e in (p.0, rw (eq-false i j (λ k. ne (e ∙ ap some (sym k)))) p.1);
    only = λ j e. elim (eq-cases i j) [
      | inl hit ↦ cc (rw (eq-true i j hit) at e)
      | inr miss ↦ h.only j (rw (eq-false i j miss) at e)
    ];
    active = h.active;
  }

  -- The entry behind the table is filled in.
  pub fill :
      {q : List ℕ} {cur : Option ℕ} {act : Bool} (v : ProcState)
      → v ≢ running
      → IsSane st n q cur act
      → IsSane (update st n v) n q cur act
  fill {q} {cur} {act} v idle h = record {
    queue =
        IsQueue-update st n n v q
          (All-mono (IsWaiting st n) (λ j. j ≢ n) q (λ j p. omega arith) h.queue.waiting) h.queue;
    current = λ j e. let p = h.current j e in (p.0, rw (eq-false n j (omega arith)) p.1);
    only = λ j e. elim (eq-cases n j) [
      | inl hit ↦ absurd (idle (rw (eq-true n j hit) at e))
      | inr miss ↦ h.only j (rw (eq-false n j miss) at e)
    ];
    active = h.active;
  }

  -- A new process comes at the end of the table and of the queue.
  pub admit :
      {q : List ℕ} {cur : Option ℕ} {act : Bool}
      → n < max_processes
      → IsSane st n q cur act
      → IsSane (update st n ready) (n + 1) (q ++ n ∷ []) cur act
  admit {q} {cur} {act} lt h = record {
    queue =
        IsQueue-snoc st (n + 1) n q (omega arith)
          (All-mono (IsWaiting st n) (λ j. j ≢ n) q (λ j p. omega arith) h.queue.waiting)
          (record {
            fits = omega arith;
            waiting =
                All-mono (IsWaiting st n) (IsWaiting st (n + 1)) q (λ j p. (omega arith, p.1))
                  h.queue.waiting;
            distinct = h.queue.distinct;
          });
    current = λ j e. let p = h.current j e in (omega arith, rw (eq-false n j (omega arith)) p.1);
    only = λ j e. elim (eq-cases n j) [
      | inl hit ↦ cc (rw (eq-true n j hit) at e)
      | inr miss ↦ h.only j (rw (eq-false n j miss) at e)
    ];
    active = h.active;
  }
