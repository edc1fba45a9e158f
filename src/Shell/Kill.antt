-- ===== src/Shell/Kill.antt =====
-- Which process `kill` of src/shell.c chooses.
use minios_lab_edwin_jose.Base.{
  ℕ, zero, suc, ◌+◌, ◌≤◌, ◌<◌, ◌≡◌, ◌≢◌, sym, ap, ◌∙◌, Bool, true, false, not, ◌&&◌, Option, none,
  some, ◌==◌, Bool-cases, inl, inr, eq-cases, arith,
}
use minios_lab_edwin_jose.Pcb.{Pcb, terminated, is_terminated}
use minios_lab_edwin_jose.Shell.{find_live}

-- What a search of the entries from `i` to `i + k` for a live process with the pid has found: the first
-- one, or that there is none.
abbrev pub Found : {D : Type 0} → (k i pid : ℕ) → (ℕ → Pcb D) → Option ℕ → Type 0
Found k i pid table none =
    (j : ℕ) → i ≤ j → j < i + k → (table j).pid ≡ pid → (table j).state ≡ terminated
Found k i pid table (some x) =
    (i ≤ x)
    × (x < i + k)
    × ((table x).pid ≡ pid)
    × ((table x).state ≢ terminated)
    × ((j : ℕ) → i ≤ j → j < x → (table j).pid ≡ pid → (table j).state ≡ terminated)

module _ {D : Type 0} (table : ℕ → Pcb D) (pid : ℕ) where
  live : ℕ → Bool
  live i = (table i).pid == pid && not (is_terminated (table i).state)

  live-true : (i : ℕ) → live i ≡ true → ((table i).pid ≡ pid) × ((table i).state ≢ terminated)
  unfolding live
  live-true i e = (ground arith, λ d. ground arith)

  live-false : (i : ℕ) → live i ≡ false → (table i).pid ≡ pid → (table i).state ≡ terminated
  unfolding live
  live-false i e p = ground arith

  -- The search of `cmd_kill_proc` returns the first entry with the pid whose process is not TERMINATED,
  -- and returns none only if every entry with the pid is TERMINATED.
  pub find_live-Found : (k i : ℕ) → Found k i pid table (find_live k i pid table)
  unfolding find_live live
  find_live-Found zero i = λ j le lt p. absurd (omega arith)
  find_live-Found (suc k) i = elim (Bool-cases (live i)) [
    | inl e ↦
        let (p, l) = live-true i e in
        rw e (omega arith, omega arith, p, l, λ j le lt q. absurd (omega arith))
    | inr e ↦ rw e (shift (find_live k (i + 1) pid table) e (find_live-Found k (i + 1)))
  ]
    where
      shift :
          (o : Option ℕ)
          → live i ≡ false
          → Found k (i + 1) pid table o
          → Found (suc k) i pid table o
      shift none e f = λ j le lt p. elim (eq-cases i j) [
        | inl same ↦
            ap (λ x. (table x).state) (sym same) ∙ live-false i e (ap (λ x. (table x).pid) same ∙ p)
        | inr ne ↦ f j (omega arith) (omega arith) p
      ]
      shift (some x) e (ge, lt, p, l, first) = (
        omega arith,
        omega arith,
        p,
        l,
        λ j le below q. elim (eq-cases i j) [
          | inl same ↦
              ap (λ y. (table y).state) (sym same)
              ∙ live-false i e (ap (λ y. (table y).pid) same ∙ q)
          | inr ne ↦ first j (omega arith) below q
        ],
      )
