-- ===== src/Scheduler/Start/Laws.antt =====
-- Starting and stopping the scheduler.
use minios_lab_edwin_jose.Base.{
  ℕ, zero, suc, ◌+◌, ◌≡◌, ◌≢◌, refl, sym, ap, subst, ◌∙◌, Bool, true, false, Option, none, some,
  List, [], ◌∷◌, ◌++◌, ◌==◌, leb, ltb, ◌&&◌, if◌then◌else◌, update, update-update, is_some, arith,
  Bool-cases, inl, inr, eq-true, eq-cases, length,
}
use minios_lab_edwin_jose.Base.Int.{ℤ}
use minios_lab_edwin_jose.Machine.{Machine}
use minios_lab_edwin_jose.Pcb.{ProcState, ready, running, terminated, is_terminated}
use minios_lab_edwin_jose.Platform.{Platform}
use minios_lab_edwin_jose.RoundRobin.{
  IsSane, IsBetween, take_next, put_back, rest, between, room, IsQueue-tail,
}
use minios_lab_edwin_jose.ReadyQueue
use minios_lab_edwin_jose.ReadyQueue.Contents.{
  IsRing, contents, contents-enqueue, contents-dequeue, length-contents, is_empty-true,
  is_empty-false,
}
use minios_lab_edwin_jose.Timer
use minios_lab_edwin_jose.Monitor
use minios_lab_edwin_jose.Scheduler.State.{System, kill, waitpid, stop_timer}
use minios_lab_edwin_jose.Scheduler.View.{states, WellFormed, states-put, IsSane-cast}
use minios_lab_edwin_jose.Scheduler.Dispatch.{mark_running, resume}
use minios_lab_edwin_jose.Scheduler.Dispatch.Laws.{states-mark_running}
use minios_lab_edwin_jose.Scheduler.Start.{
  activate, launched, launch, start, stop_one, stop_all, stop,
}

-- No process runs while the scheduler is not active.
pub idle-none :
    {W D : Type 0} (s : System W D)
    → WellFormed s
    → s.scheduler_active ≡ false
    → s.current_running ≡ none
idle-none s h e = none_of (s.current_running) (sym h.1.active ∙ e)
  where
    none_of : (o : Option ℕ) → is_some o ≡ false → o ≡ none
    none_of none k = refl
    none_of (some i) k = cc

module _ {W D : Type 0} (m : Machine W D) (t : Platform) (slice_ms : ℤ) where
  -- Process `i`, the oldest of the queue, has been taken out of it.
  module _ (i : ℕ) (s : System W D)
      (h : IsRing s.rq × IsBetween (states s) s.process_count (i ∷ contents s.rq)) where
    marked-WellFormed :
        let s1 = mark_running m t i s in
        IsRing s.rq × IsSane (states s1) s.process_count (contents s.rq) (some i) true
    marked-WellFormed = IsSane-cast (states-mark_running m t i s) refl refl (h.0, take_next h.1)

    -- A process that cannot be resumed is READY again and goes to the end of the queue.
    unmarked-Switching :
        let q = (ReadyQueue.enqueue i s.rq).1 in
        (contents q ≡ contents s.rq ++ i ∷ [])
        × IsRing q
        × IsBetween (update (states s) i ready) s.process_count (contents q)
    unmarked-Switching =
        let back = put_back h.1 in
        let (done, queued, ring, more) = contents-enqueue i h.0 (
          omega (
            arith,
            length-contents s.rq,
            room (states s) s.process_count i (contents s.rq) h.1.queue.waiting.0.0
                h.1.queue.distinct.0 (IsQueue-tail (states s) s.process_count h.1.queue),
          )) in
        (queued, ring, rw queued back)

pub not_empty : {i : ℕ} {l : List ℕ} (q : ReadyQueue.ReadyQueue) → contents q ≡ i ∷ l → q.count ≢ 0
not_empty q e z = omega (arith, length-contents q, ap length e, z)

pub cons-eq-cons : {i j : ℕ} {q r : List ℕ} → i ∷ q ≡ j ∷ r → (i ≡ j) × (q ≡ r)
cons-eq-cons e = (cc, cc)

-- The outcome of starting with `i` the oldest process: it runs and the scheduler is active with the
-- given slice, or it is READY at the end of the queue and the scheduler is not active.
abbrev pub Launched : {W D : Type 0} → ℤ → ℕ → List ℕ → Bool → System W D → Type 0
Launched slice_ms i q true s =
    (s.current_running ≡ some i)
    × (contents s.rq ≡ q)
    × (s.scheduler_active ≡ true)
    × (s.timer.current_slice_ms ≡ slice_ms)
    × (s.timer.tick_installed ≡ true)
Launched slice_ms i q false s =
    (s.current_running ≡ none)
    × (contents s.rq ≡ q ++ i ∷ [])
    × (s.scheduler_active ≡ false)
    × (states s i ≡ ready)

-- What was done to the world `w` in which the signal has been sent: if the process was resumed, the timer was armed
-- with the interval of the slice, and then the monitor was told; if not, nothing.
abbrev pub Armed : {W D : Type 0} → Machine W D → ℤ → ℕ → Bool → System W D → System W D → Type 0
Armed m slice_ms i true s s' =
    let told =
      Monitor.emit_switch m 0 (s.process_table i).pid slice_ms s.monitor
        (m.setitimer (Timer.interval s'.timer) s.world) in
    (s'.monitor ≡ told.0) × (s'.world ≡ told.1)
Armed m slice_ms i false s s' = (s'.monitor ≡ s.monitor) × (s'.world ≡ s.world)

module _ {W D : Type 0} (m : Machine W D) (t : Platform) (slice_ms : ℤ) where
  -- Whether the signal that resumes process `i` is delivered.
  abbrev pub resumes : ℕ → System W D → Bool
  resumes i s = let s1 = mark_running m t i s in (resume m t (s1.process_table i).pid s1).0

  -- The system in which the signal is sent.
  abbrev pub entered : ℕ → System W D → System W D
  entered i s =
      let s1 = record (mark_running m t i s) { current_running = some i } in
      (resume m t (s1.process_table i).pid s1).1

  pub states-entered : (i : ℕ) (s : System W D) → states (entered i s) ≡ update (states s) i running
  unfolding resume
  states-entered i s = states-mark_running m t i s

  launched-Launched :
      (i : ℕ) (s : System W D)
      → s.scheduler_active ≡ false
      → IsRing s.rq × IsBetween (states s) s.process_count (i ∷ contents s.rq)
      → (b : Bool)
      → let s' = launched m t b slice_ms i (entered i s) in
        WellFormed s' × Launched slice_ms i (contents s.rq) b s'
  unfolding launched activate resume mark_running Timer.init
  launched-Launched i s a h true = (
    IsSane-cast (states-entered i s) refl refl (h.0, take_next h.1),
    (refl, refl, refl, refl, refl),
  )
  launched-Launched i s a h false =
      let (queued, ring, back) = unmarked-Switching m t slice_ms i s h in
      let same =
        states-put i _ (entered i s)
        ∙ (ap (λ f. update f i ready) (states-entered i s)
            ∙ update-update (states s) i running ready) in
      (
        IsSane-cast same refl refl (ring, rw a (rest back)),
        (refl, queued, a, ap (λ f. f i) same ∙ rw (eq-true i i refl) refl),
      )

  launched-Armed :
      (i : ℕ) (s : System W D) (b : Bool) → Armed m slice_ms i b s (launched m t b slice_ms i s)
  unfolding launched activate Timer.start Timer.init
  launched-Armed i s true = (refl, refl)
  launched-Armed i s false = (refl, refl)

  pub launch-launched :
      (i : ℕ) (s : System W D)
      → launch m t slice_ms i s ≡ launched m t (resumes i s) slice_ms i (entered i s)
  unfolding launch resume
  launch-launched i s = refl

  pub start-launch :
      (i : ℕ) (s : System W D)
      → ReadyQueue.is_empty s.rq ≡ false
      → (ReadyQueue.dequeue s.rq).0 ≡ some i
      → start m t slice_ms s ≡ launch m t slice_ms i (record s { rq = (ReadyQueue.dequeue s.rq).1 })
  unfolding start
  start-launch i s e d = ground arith

  -- Starting an idle scheduler with processes in the queue takes the oldest: if the signal that resumes
  -- it is delivered, it runs, the rest of the queue waits, the timer has the slice and after the signal
  -- is armed with its interval before the monitor is told; if not, it goes back READY to the end of the
  -- queue, the scheduler stays idle and nothing is done after the signal. Either way the system is well
  -- formed.
  pub start-Launched :
      (i : ℕ) (q : List ℕ) (s : System W D)
      → WellFormed s
      → s.scheduler_active ≡ false
      → contents s.rq ≡ i ∷ q
      → WellFormed (start m t slice_ms s)
        × Launched slice_ms i q
            (resumes i (record s { rq = (ReadyQueue.dequeue s.rq).1 }))
            (start m t slice_ms s)
        × Armed m slice_ms i
            (resumes i (record s { rq = (ReadyQueue.dequeue s.rq).1 }))
            (entered i (record s { rq = (ReadyQueue.dequeue s.rq).1 }))
            (start m t slice_ms s)
  start-Launched i q s h a e =
      let taken = record s { rq = (ReadyQueue.dequeue s.rq).1 } in
      let busy = not_empty s.rq e in
      let (j, out, eq, ring, fewer) = contents-dequeue h.0 busy in
      let (head, tail) = cons-eq-cons (sym e ∙ eq) in
      let ready_to_run : IsRing taken.rq
          × IsBetween (states s) s.process_count (i ∷ contents taken.rq) =
        (
          ring,
          subst (λ l. IsBetween (states s) s.process_count l)
              (eq ∙ ap (λ k. k ∷ contents taken.rq) (sym head))
              (between (
                subst (λ c. IsSane (states s) s.process_count (contents s.rq) c s.scheduler_active)
                  (idle-none s h a) h.1)),
        ) in
      let (well, outcome) = launched-Launched i taken a ready_to_run (resumes i taken) in
      subst
        (λ x.
          WellFormed x
          × Launched slice_ms i q (resumes i taken) x
          × Armed m slice_ms i (resumes i taken) (entered i taken) x)
        (sym (
          start-launch i s (is_empty-false s.rq busy) (out ∙ ap some (sym head))
          ∙ launch-launched i taken))
        (
          well,
          subst
              (λ l.
                Launched slice_ms i l (resumes i taken)
                  (launched m t (resumes i taken) slice_ms i (entered i taken)))
              (sym tail) outcome,
          launched-Armed i (entered i taken) (resumes i taken),
        )

  -- With nothing in the queue nothing happens.
  pub start-empty : (s : System W D) → contents s.rq ≡ [] → start m t slice_ms s ≡ s
  unfolding start
  start-empty s e = rw (is_empty-true s.rq (sym (length-contents s.rq) ∙ ap length e)) refl

is_terminated-true : (st : ProcState) → is_terminated st ≡ true → st ≡ terminated
is_terminated-true st e = ground arith

module _ {W D : Type 0} (m : Machine W D) where
  frame-stop_all :
      (k i : ℕ) (s : System W D)
      → ((stop_all m k i s).scheduler_active ≡ s.scheduler_active)
        × ((stop_all m k i s).process_count ≡ s.process_count)
  unfolding stop_all stop_one kill waitpid
  frame-stop_all zero i s = (refl, refl)
  frame-stop_all (suc k) i s = ground (arith, frame-stop_all k (i + 1) (stop_one m i s))

  stop_one-states :
      (i : ℕ) (s : System W D) (j : ℕ)
      → states (stop_one m i s) j ≡ (if i == j then terminated else states s j)
  unfolding stop_one kill waitpid
  stop_one-states i s j = elim (Bool-cases (is_terminated (s.process_table i).state)) [
    | inl e ↦ elim (eq-cases i j) [
      | inl hit ↦ rw (← hit) (ground (arith, e, is_terminated-true (s.process_table i).state e))
      | inr miss ↦ ground (arith, e)
    ]
    | inr e ↦ ground (arith, e)
  ]

  -- The loop leaves every process that it passes TERMINATED, and no other process changes its state.
  stop_all-states :
      (k i : ℕ) (s : System W D) (j : ℕ)
      → states (stop_all m k i s) j ≡ (if leb i j && ltb j (i + k) then terminated else states s j)
  unfolding stop_all
  stop_all-states zero i s j = ground arith
  stop_all-states (suc k) i s j =
      stop_all-states k (i + 1) (stop_one m i s) j ∙ ground (arith, stop_one-states i s j)

  -- `scheduler_stop` leaves every process of the table TERMINATED and no other entry's state changed,
  -- no current process, the scheduler inactive and the table as long as it was.
  pub stop-states :
      (s : System W D)
      → ((j : ℕ) → states (stop m s) j ≡ (if ltb j s.process_count then terminated else states s j))
        × ((stop m s).current_running ≡ none)
        × ((stop m s).scheduler_active ≡ false)
        × ((stop m s).process_count ≡ s.process_count)
  unfolding stop stop_timer
  stop-states s = (
    λ j. stop_all-states s.process_count 0 s1 j ∙ ground arith,
    refl,
    (frame-stop_all s.process_count 0 s1).0,
    (frame-stop_all s.process_count 0 s1).1,
  )
    where
      s1 : System W D
      s1 = record (stop_timer m s) { scheduler_active = false }
