-- ===== src/Scheduler/Tick/Slice.antt =====
-- What the handler of SIGALRM does to the queue of a scheduler that runs a process.
use minios_lab_edwin_jose.Base.{ℕ, ◌≡◌, true, false, [], ◌∷◌, ◌++◌, ◌⊎◌}
use minios_lab_edwin_jose.Machine.{Machine, child, untraced}
use minios_lab_edwin_jose.Platform.{Platform}
use minios_lab_edwin_jose.ReadyQueue.Contents.{contents}
use minios_lab_edwin_jose.RoundRobin.Policy.{Dispatches}
use minios_lab_edwin_jose.Scheduler.State.{System}
use minios_lab_edwin_jose.Scheduler.Dispatch.Policy.{Answers}
use minios_lab_edwin_jose.Scheduler.Tick.{has_died}

-- Process `prev` was waited for. If the answer tells its end, the queue is dispatched; if not, the queue with it at
-- the end. Dispatching takes processes from the front: each that is lost refused a SIGCONT, and the one that gets the
-- processor accepted one.
abbrev pub Slice : {W D : Type 0} → Machine W D → ℕ → System W D → System W D → Type 0
Slice {W} m prev s s' =
    (w : W) × (let pid = (s.process_table prev).pid in
      let died = has_died pid (m.waitpid (child pid) untraced w).0 in
      ((died ≡ true)
        × Dispatches (Answers m s false) (Answers m s true) (contents s.rq) (contents s'.rq)
            s'.current_running)
      ⊎ ((died ≡ false)
          × Dispatches (Answers m s false) (Answers m s true) (contents s.rq ++ prev ∷ [])
              (contents s'.rq) s'.current_running))
