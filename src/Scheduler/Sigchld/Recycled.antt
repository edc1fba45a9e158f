-- ===== src/Scheduler/Sigchld/Recycled.antt =====
-- What the search for a pid in `scheduler_sigchld` finds.
use minios_lab_edwin_jose.Base.{
  ℕ, zero, suc, ◌+◌, ◌≤◌, ◌<◌, ◌≡◌, ◌≢◌, refl, ap, ◌∙◌, some, if-rule, eq-cases, eq-true, eq-false,
  inl, inr, arith,
}
use minios_lab_edwin_jose.Machine.{Machine, WaitStatus, is_dead}
use minios_lab_edwin_jose.Pcb.{terminated}
use minios_lab_edwin_jose.Platform.{Platform}
use minios_lab_edwin_jose.Scheduler.State.{System}
use minios_lab_edwin_jose.Scheduler.Sigchld.{find_pid, reap, reap_found}

-- The search stops at the first entry with the pid.
pub find_pid-first :
    (k lo pid : ℕ) (pids : ℕ → ℕ) (i : ℕ)
    → lo ≤ i
    → i < lo + k
    → pids i ≡ pid
    → ((j : ℕ) → lo ≤ j → j < i → pids j ≢ pid)
    → find_pid k lo pid pids ≡ some i
unfolding find_pid
find_pid-first zero lo pid pids i le lt e first = absurd (omega arith)
find_pid-first (suc k) lo pid pids i le lt e first = elim (eq-cases lo i) [
  | inl same ↦ rw (eq-true (pids lo) pid (ap pids same ∙ e)) (ap some same)
  | inr ne ↦ rw (eq-false (pids lo) pid (first lo (omega arith) (omega arith))) (
      find_pid-first k (lo + 1) pid pids i (omega arith) (omega arith) e
        (λ j a b. first j (omega arith) b))
]

-- A child whose pid an earlier process had, TERMINATED since, is passed over: if the first entry with the
-- pid is TERMINATED, collecting the child changes nothing, whatever entries with the same pid follow.
pub reap-recycled :
    {W D : Type 0} (m : Machine W D) (t : Platform) (pid : ℕ) (status : WaitStatus) (s : System W D)
    (i : ℕ)
    → i < s.process_count
    → (s.process_table i).pid ≡ pid
    → ((j : ℕ) → j < i → (s.process_table j).pid ≢ pid)
    → (s.process_table i).state ≡ terminated
    → reap m t pid status s ≡ s
unfolding reap reap_found
reap-recycled m t pid status s i lt e first dead =
    if-rule (λ x. x ≡ s) (is_dead status) _ s
      (λ _.
        rw
          (find_pid-first s.process_count 0 pid (λ j. (s.process_table j).pid) i (omega arith)
            (omega arith) e (λ j _ b. first j b))
          (rw dead refl))
      (λ _. refl)
