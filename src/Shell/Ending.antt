-- ===== src/Shell/Ending.antt =====
-- What `exit` of src/shell.c leaves behind.
use minios_lab_edwin_jose.Base.{ℕ, ◌≡◌, ◌<◌, refl, ◌∙◌, List, ◌++◌, Option-cases, inl, inr, arith}
use minios_lab_edwin_jose.Machine.{Machine}
use minios_lab_edwin_jose.Pcb.{terminated}
use minios_lab_edwin_jose.Monitor
use minios_lab_edwin_jose.Scheduler.State.{System}
use minios_lab_edwin_jose.Scheduler.View.{states}
use minios_lab_edwin_jose.Scheduler.Start.{stop}
use minios_lab_edwin_jose.Scheduler.Start.Laws.{stop-states}
use minios_lab_edwin_jose.Scheduler.Start.Killing.{LogsKills, alive, stop-alive}
use minios_lab_edwin_jose.Shell.{block_alarm, unblock_alarm, leave, perform}
use minios_lab_edwin_jose.CommandLine.{Command}
use minios_lab_edwin_jose.Platform.{Platform}

module _ {W D : Type 0} (killed : W → List ℕ) where
  -- Of the processes in `s`, each that is not TERMINATED has been sent one SIGKILL on the way to `s'`, in
  -- the order of the table, nobody else has, and all of them are TERMINATED.
  abbrev pub Cleared : System W D → System W D → Type 0
  Cleared s s' =
      (killed s'.world ≡ killed s.world ++ alive s.process_count 0 s.process_table)
      × ((j : ℕ) → j < s.process_count → states s' j ≡ terminated)

module _ {W D : Type 0} (m : Machine W D) (killed : W → List ℕ) (law : LogsKills m killed) where
  pub stop-Cleared : (s : System W D) → Cleared killed s (stop m s)
  stop-Cleared s = (stop-alive m killed law s, λ j lt. (stop-states m s).0 j ∙ ground (arith, lt))

  close-killed : (mon : Monitor.Monitor) (w : W) → killed (Monitor.close m mon w).1 ≡ killed w
  unfolding Monitor.close
  close-killed mon w = elim (Option-cases mon.sock_fd) [
    | inl e ↦ rw e refl
    | inr (fd, e) ↦ rw e (law.close_logged fd w)
  ]

  leave-Cleared : (s : System W D) → Cleared killed s (leave m s)
  unfolding leave block_alarm unblock_alarm
  leave-Cleared s =
      let s1 = stop m (block_alarm s) in
      let (sent, dead) = stop-Cleared (block_alarm s) in
      (close-killed s1.monitor s1.world ∙ sent, dead)

  pub exit-Cleared :
      (t : Platform) (s : System W D) → Cleared killed s (perform m t Command.exit s).1
  unfolding perform
  exit-Cleared t s = leave-Cleared s
