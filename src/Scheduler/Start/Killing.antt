-- ===== src/Scheduler/Start/Killing.antt =====
-- Whom `scheduler_stop` of src/scheduler.c kills.
use minios_lab_edwin_jose.Base.{
  ℕ, zero, suc, ◌+◌, ◌≤◌, ◌≡◌, refl, sym, ap, ◌∙◌, false, List, [], ◌∷◌, ◌++◌, append_assoc,
  append-nil, if◌then◌else◌, arith, Bool-cases, eq-false, inl, inr,
}
use minios_lab_edwin_jose.Machine.{
  Machine, sigkill, WaitTarget, WaitFlags, Itimerval, child, blocking,
}
use minios_lab_edwin_jose.Pcb.{Pcb, is_terminated}
use minios_lab_edwin_jose.Timer
use minios_lab_edwin_jose.Scheduler.State.{System, kill, waitpid, stop_timer}
use minios_lab_edwin_jose.Scheduler.Start.{stop_one, stop_all, stop}

-- `killed` lists the pids that SIGKILL has been sent to, in order; waiting, the interval timer and the closing
-- of a descriptor send none.
pub record LogsKills {W D : Type 0} (m : Machine W D) (killed : W → List ℕ) : Type 0 where
  pub kill_logged : (pid : ℕ) (w : W) → killed (m.kill pid sigkill w).1 ≡ killed w ++ pid ∷ []
  pub waitpid_logged :
      (target : WaitTarget) (flags : WaitFlags) (w : W)
      → killed (m.waitpid target flags w).1 ≡ killed w
  pub setitimer_logged : (v : Itimerval) (w : W) → killed (m.setitimer v w) ≡ killed w
  pub close_logged : (fd : ℕ) (w : W) → killed (m.close fd w) ≡ killed w

-- The pids of the entries from `i` to `i + k` that are not TERMINATED.
abbrev pub alive : {D : Type 0} → (k i : ℕ) → (ℕ → Pcb D) → List ℕ
alive zero i table = []
alive (suc k) i table =
    let rest = alive k (i + 1) table in
    if is_terminated (table i).state then rest else (table i).pid ∷ rest

alive-congr :
    {D : Type 0} (k i : ℕ) (t t' : ℕ → Pcb D)
    → ((j : ℕ) → i ≤ j → t j ≡ t' j)
    → alive k i t ≡ alive k i t'
alive-congr zero i t t' h = refl
alive-congr (suc k) i t t' h =
    let rest = alive-congr k (i + 1) t t' (λ j le. h j (omega (arith, le))) in
    rw (h i (omega arith), rest) refl

alive-first :
    {D : Type 0} (k i : ℕ) (t : ℕ → Pcb D) → alive (suc k) i t ≡ alive 1 i t ++ alive k (i + 1) t
alive-first k i t = elim (Bool-cases (is_terminated (t i).state)) [
  | inl e ↦ rw e refl
  | inr e ↦ rw e refl
]

module _ {W D : Type 0} (m : Machine W D) (killed : W → List ℕ) (law : LogsKills m killed) where
  stop_one-alive :
      (i : ℕ) (s : System W D)
      → (killed (stop_one m i s).world ≡ killed s.world ++ alive 1 i s.process_table)
        × ((j : ℕ) → i + 1 ≤ j → (stop_one m i s).process_table j ≡ s.process_table j)
  unfolding stop_one kill waitpid
  stop_one-alive i s = elim (Bool-cases (is_terminated (s.process_table i).state)) [
    | inl e ↦ rw e (sym (append-nil (killed s.world)), λ j le. refl)
    | inr e ↦
        let pid = (s.process_table i).pid in
        let (answer, w) = m.kill pid sigkill s.world in
        rw e (
          law.waitpid_logged (child pid) blocking w ∙ law.kill_logged pid s.world,
          λ j le. rw (eq-false i j (omega (arith, le))) refl,
        )
  ]

  stop_all-alive :
      (k i : ℕ) (s : System W D)
      → killed (stop_all m k i s).world ≡ killed s.world ++ alive k i s.process_table
  unfolding stop_all
  stop_all-alive zero i s = sym (append-nil (killed s.world))
  stop_all-alive (suc k) i s =
      let s1 = stop_one m i s in
      let (first, same) = stop_one-alive i s in
      let rest = alive k (i + 1) s.process_table in
      let one = alive 1 i s.process_table in
      stop_all-alive k (i + 1) s1
      ∙ rw (first, alive-congr k (i + 1) s1.process_table s.process_table same)
          (append_assoc (killed s.world) one rest
            ∙ ap (λ xs. killed s.world ++ xs) (sym (alive-first k i s.process_table)))

  pub stop-alive :
      (s : System W D)
      → killed (stop m s).world ≡ killed s.world ++ alive s.process_count 0 s.process_table
  unfolding stop stop_timer Timer.stop
  stop-alive s =
      let s1 = record (stop_timer m s) { scheduler_active = false } in
      stop_all-alive s.process_count 0 s1
      ∙ ap (λ xs. xs ++ alive s.process_count 0 s.process_table)
          (law.setitimer_logged Timer.disarmed s.world)
