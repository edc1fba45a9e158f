-- ===== src/Console/Commands/Kill.antt =====
-- What `kill` of src/shell.c says, against what it does.
use minios_lab_edwin_jose.Base.{
  ℕ, suc, ◌≡◌, refl, Option, none, some, List, [], inl, inr, if◌then◌else◌, Bool-cases,
}
use minios_lab_edwin_jose.Base.Int.{pos}
use minios_lab_edwin_jose.Machine.{Machine, sigkill}
use minios_lab_edwin_jose.Pcb.{is_running}
use minios_lab_edwin_jose.ReadyQueue
use minios_lab_edwin_jose.Scheduler.State.{System, kill, restore_mask, block_chld, block_alrm}
use minios_lab_edwin_jose.Shell.{find_live, kill_found, kill_parsed, kill_pid}
use minios_lab_edwin_jose.Shell.Kill.{Found, find_live-Found}
use minios_lab_edwin_jose.Console.{Out}
use minios_lab_edwin_jose.Console.Report.{not_found, killed}
use minios_lab_edwin_jose.Console.Commands.{print_kill_found, print_kill_parsed}

module _ {W D : Type 0} (m : Machine W D) where
  -- What `kill` says and does about a pid, by the answer of its search.
  abbrev pub Tells : (n : ℕ) → System W D → Option ℕ → List (Out D) → System W D → Type 0
  Tells n s none out s' = (out ≡ not_found (pos (suc n))) × (s' ≡ s)
  Tells n s (some x) out s' =
      let (done, w) = m.kill (suc n) sigkill s.world in
      (s'.world ≡ w)
      × (s'.rq
          ≡ (if is_running (s.process_table x).state then s.rq else (ReadyQueue.remove x s.rq).1))
      × (s'.process_table ≡ s.process_table)
      × (out ≡ (if done then killed (pos (suc n)) else []))

  print_kill-agrees :
      (n : ℕ) (s : System W D) (o : Option ℕ)
      → Tells n s o
          (print_kill_found m (suc n) o (block_chld (block_alrm s)))
          (restore_mask s.mask (kill_found m (suc n) o (block_chld (block_alrm s))))
  unfolding print_kill_found kill_found kill
  print_kill-agrees n s none = (refl, refl)
  print_kill-agrees n s (some x) = elim (Bool-cases (is_running (s.process_table x).state)) [
    | inl e ↦ rw e (refl, refl, refl, refl)
    | inr e ↦ rw e (refl, refl, refl, refl)
  ]

  -- For a positive pid, `kill` says that there is no such process only if every entry of the table with the
  -- pid is TERMINATED, and then it changes nothing; else it signals the first live process with the pid
  -- after taking it out of the queue, if it does not run, and says that it is gone just when the signal
  -- was accepted.
  pub print_kill-Tells :
      (n : ℕ) (s : System W D)
      → (o : Option ℕ) × Found s.process_count 0 (suc n) s.process_table o
        × Tells n s o (print_kill_parsed m (pos (suc n)) s) (kill_parsed m (pos (suc n)) s)
  unfolding print_kill_parsed kill_parsed kill_pid
  print_kill-Tells n s =
      let o = find_live s.process_count 0 (suc n) s.process_table in
      (o, find_live-Found s.process_table (suc n) s.process_count 0, print_kill-agrees n s o)
