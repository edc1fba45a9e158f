-- ===== src/Tests/Scheduler.antt =====
-- The theorems on the scheduler and its queue at concrete inputs.
use minios_lab_edwin_jose.Base.{ℕ, ◌+◌, ◌≡◌, refl, true, none, some, List, [], ◌∷◌, arith, Always}
use minios_lab_edwin_jose.Base.Int.{pos}
use minios_lab_edwin_jose.Machine.{any_child, exited, nohang}
use minios_lab_edwin_jose.Fifo
use minios_lab_edwin_jose.Fifo.{Op, Reply, max_processes}
use minios_lab_edwin_jose.Pcb.{ready, terminated}
use minios_lab_edwin_jose.Platform.{linux, darwin}
use minios_lab_edwin_jose.ReadyQueue
use minios_lab_edwin_jose.ReadyQueue.{ReadyQueue}
use minios_lab_edwin_jose.ReadyQueue.Contents.{contents}
use minios_lab_edwin_jose.ReadyQueue.Refine
use minios_lab_edwin_jose.ReadyQueue.Refine.{run_refines}
use minios_lab_edwin_jose.Scheduler.State.{System}
use minios_lab_edwin_jose.Scheduler.View.{states, WellFormed}
use minios_lab_edwin_jose.Scheduler.Dispatch.{charge, dispatch}
use minios_lab_edwin_jose.Scheduler.Dispatch.Charge.{charge-at, elapsed}
use minios_lab_edwin_jose.Scheduler.Dispatch.Laws.{Dispatched, Resumed, dispatch_lem}
use minios_lab_edwin_jose.Scheduler.Tick.{tick}
use minios_lab_edwin_jose.Scheduler.Tick.Slice.{Slice}
use minios_lab_edwin_jose.Scheduler.Tick.Forward.{Forward, tick-Forward}
use minios_lab_edwin_jose.Scheduler.Tick.Laws.{tick-WellFormed}
use minios_lab_edwin_jose.Scheduler.Tick.Total.{tick-total}
use minios_lab_edwin_jose.Scheduler.Tick.Rotation.{ticks, ticks-reach}
use minios_lab_edwin_jose.Scheduler.Sigchld.{sigchld}
use minios_lab_edwin_jose.Scheduler.Sigchld.Laws.{sigchld-WellFormed}
use minios_lab_edwin_jose.Scheduler.Sigchld.Total.{sigchld-total, IsDrained}
use minios_lab_edwin_jose.Scheduler.Create.{create_process}
use minios_lab_edwin_jose.Scheduler.Create.Laws.{Created, create_process-Created}
use minios_lab_edwin_jose.Scheduler.Start.{start}
use minios_lab_edwin_jose.Scheduler.Sigchld.{reap}
use minios_lab_edwin_jose.Scheduler.Sigchld.Recycled.{reap-recycled, find_pid-first}
use minios_lab_edwin_jose.Scheduler.Sigchld.Terminated.{reap-terminated}
use minios_lab_edwin_jose.Scheduler.Start.Laws.{Launched, Armed, resumes, entered, start-Launched}
use minios_lab_edwin_jose.Tests.Data.{
  epoch, obey_wait, obedient, obedient-Cooperative, obedient-CountsChildren, entry, one_waiting,
  two, one_waiting-IsRing, two-WellFormed, paused, paused-Switching, paused-WellFormed, recycled,
}

abbrev session : List Op
session = Op.enqueue 7 ∷ Op.remove 1 ∷ Op.dequeue ∷ Op.dequeue ∷ []

run_refines_example : Refine.run one_waiting session ≡ Fifo.run (1 ∷ []) session
run_refines_example = run_refines session one_waiting-IsRing

session_answers :
    Fifo.run (1 ∷ []) session
    ≡ Reply.status true ∷ Reply.status true ∷ Reply.index (some 7) ∷ Reply.index none ∷ []
unfolding Fifo.run Fifo.step
session_answers = refl

ticks-reach_example :
    (s' : System ℕ ℕ) × (ticks obedient linux 1 1 two ≡ some s')
    × WellFormed s'
    × (s'.current_running ≡ some 1)
    × (contents s'.rq ≡ 0 ∷ [])
ticks-reach_example =
    ticks-reach obedient linux obedient-Cooperative 0 (0 ∷ []) 1 [] two refl two-WellFormed refl

tick-WellFormed_example : Always WellFormed (tick obedient linux 1 two)
tick-WellFormed_example = tick-WellFormed obedient linux 1 two two-WellFormed

tick-total_example : (s' : System ℕ ℕ) × (tick obedient darwin 1 two ≡ some s')
tick-total_example = tick-total obedient darwin (λ w. 0) (λ pid w e. cc) 1 two (λ pid. omega arith)

sigchld-WellFormed_example : Always WellFormed (sigchld obedient linux 3 two)
sigchld-WellFormed_example = sigchld-WellFormed obedient linux 3 two two-WellFormed

tick-Forward_example : Always (Forward two) (tick obedient linux 1 two)
tick-Forward_example = tick-Forward obedient linux 1 0 two refl two-WellFormed

sigchld-total_example :
    (s' : System ℕ ℕ) × (w : ℕ) × (sigchld obedient linux 3 two ≡ some s')
    × IsDrained (obey_wait any_child nohang w).0
    × (s'.world ≡ (obey_wait any_child nohang w).1)
    × (s'.mask ≡ two.mask)
sigchld-total_example =
    sigchld-total obedient linux (λ w. w) obedient-CountsChildren 3 two (omega arith)

create_process-Created_example :
    let (r, s') = create_process obedient linux (47 ∷ 97 ∷ []) two in Created two r s'
create_process-Created_example =
    create_process-Created obedient linux (47 ∷ 97 ∷ []) two two-WellFormed

charge-at_example :
    (charge obedient 0 epoch two).process_table 1
    ≡ record (entry ready 1) { wait_time_ms = 0 + elapsed obedient 0 epoch two }
charge-at_example = charge-at obedient 0 epoch two 1

dispatch_lem_example :
    Dispatched (dispatch obedient linux 1 paused).0 (dispatch obedient linux 1 paused).1
    × Resumed obedient (dispatch obedient linux 1 paused).0 (dispatch obedient linux 1 paused).1
dispatch_lem_example = dispatch_lem obedient linux 1 paused (omega arith) paused-Switching

start-Launched_example :
    WellFormed (start obedient linux (pos 500) paused)
    × Launched
        (pos 500)
        1
        []
        (resumes obedient linux
          (pos 500)
          1
          (record paused { rq = (ReadyQueue.dequeue one_waiting).1 }))
        (start obedient linux (pos 500) paused)
    × Armed obedient
        (pos 500)
        1
        (resumes obedient linux
          (pos 500)
          1
          (record paused { rq = (ReadyQueue.dequeue one_waiting).1 }))
        (entered obedient linux
          (pos 500)
          1
          (record paused { rq = (ReadyQueue.dequeue one_waiting).1 }))
        (start obedient linux (pos 500) paused)
start-Launched_example =
    start-Launched obedient linux (pos 500) 1 [] paused paused-WellFormed refl refl

reap-recycled_example : reap obedient linux 100 (exited 0) recycled ≡ recycled
reap-recycled_example =
    reap-recycled obedient linux 100 (exited 0) recycled 0 (omega arith) refl
      (λ j lt. absurd (omega arith)) refl

reap-terminated_example : states (reap obedient linux 101 (exited 0) two) 1 ≡ terminated
reap-terminated_example = reap-terminated obedient linux 101 1 (exited 0) two refl (
    find_pid-first 2 0 101 (λ i. (two.process_table i).pid) 1 (omega arith) (omega arith) refl
      (λ j a b. omega arith))
