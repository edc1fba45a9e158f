-- ===== src/Console/Report/Inspect.antt =====
-- Which process `inspect` of src/shell.c shows.
use minios_lab_edwin_jose.Base.{
  ℕ, zero, suc, ◌+◌, ◌≤◌, ◌<◌, ◌≡◌, ◌≢◌, refl, sym, ap, true, false, Option, none, some, List, ◌⊎◌,
  Bool-cases, inl, inr, eq-cases, arith,
}
use minios_lab_edwin_jose.Base.Int.{ℤ, pos, negsuc, eq_ℤ}
use minios_lab_edwin_jose.Pcb.{Pcb}
use minios_lab_edwin_jose.Platform.{Platform}
use minios_lab_edwin_jose.Console.{Out}
use minios_lab_edwin_jose.Console.Report.{report, inspect_from, inspect_pid, not_found}

-- What a search of the entries from `i` to `i + k` may answer: the first entry with the pid, or that there is none.
abbrev pub Shown :
    {D : Type 0} → Platform → ℤ → (k i : ℕ) → (ℕ → Pcb D) → Option (List (Out D)) → Type 0
Shown t pid k i table none = (j : ℕ) → i ≤ j → j < i + k → pos (table j).pid ≢ pid
Shown t pid k i table (some out) =
    (x : ℕ) × (i ≤ x)
    × (x < i + k)
    × (pos (table x).pid ≡ pid)
    × ((j : ℕ) → i ≤ j → j < x → pos (table j).pid ≢ pid)
    × (out ≡ report t pid (table x))

eq_ℤ-true : (n : ℕ) (z : ℤ) → eq_ℤ (pos n) z ≡ true → pos n ≡ z
eq_ℤ-true n (pos k) e = ap pos (ground arith)
eq_ℤ-true n (negsuc k) e = absurd (ground arith)

eq_ℤ-false : (n : ℕ) (z : ℤ) → eq_ℤ (pos n) z ≡ false → pos n ≢ z
eq_ℤ-false n (pos k) e = λ same. ground arith
eq_ℤ-false n (negsuc k) e = λ same. cc same

module _ {D : Type 0} (t : Platform) (pid : ℤ) (table : ℕ → Pcb D) where
  Shown-shift :
      (k i : ℕ) (o : Option (List (Out D)))
      → pos (table i).pid ≢ pid
      → Shown t pid k (i + 1) table o
      → Shown t pid (suc k) i table o
  Shown-shift k i none ne f = λ j le lt. elim (eq-cases i j) [
    | inl same ↦ rw (sym same) ne
    | inr other ↦ f j (omega arith) (omega arith)
  ]
  Shown-shift k i (some out) ne (x, ge, lt, p, first, said) = (
    x,
    omega arith,
    omega arith,
    p,
    (λ j le below. elim (eq-cases i j) [
      | inl same ↦ rw (sym same) ne
      | inr other ↦ first j (omega arith) below
    ]),
    said,
  )

  inspect_from-Shown : (k i : ℕ) → Shown t pid k i table (inspect_from t pid k i table)
  unfolding inspect_from
  inspect_from-Shown zero i = λ j le lt. absurd (omega arith)
  inspect_from-Shown (suc k) i = elim (Bool-cases (eq_ℤ (pos (table i).pid) pid)) [
    | inl e ↦ rw e (
      i,
      omega arith,
      omega arith,
      eq_ℤ-true (table i).pid pid e,
      (λ j le below. absurd (omega arith)),
      refl,
    )
    | inr e ↦ rw e (
        Shown-shift k i (inspect_from t pid k (i + 1) table) (eq_ℤ-false (table i).pid pid e)
          (inspect_from-Shown k (i + 1)))
  ]

-- `inspect` shows the first entry of the table with the pid, and says that there is none only if no
-- entry has it, a pid that is not positive included.
pub inspect_pid-first :
    {D : Type 0} (t : Platform) (pid : ℤ) (count : ℕ) (table : ℕ → Pcb D)
    → (((j : ℕ) → j < count → pos (table j).pid ≢ pid)
        × (inspect_pid t pid count table ≡ not_found pid))
      ⊎ ((x : ℕ) × (x < count)
          × (pos (table x).pid ≡ pid)
          × ((j : ℕ) → j < x → pos (table j).pid ≢ pid)
          × (inspect_pid t pid count table ≡ report t pid (table x)))
unfolding inspect_pid
inspect_pid-first {D = D} t pid count table =
    go (inspect_from t pid count 0 table) refl (inspect_from-Shown t pid table count 0)
  where
    go :
        (o : Option (List (Out D)))
        → inspect_from t pid count 0 table ≡ o
        → Shown t pid count 0 table o
        → (((j : ℕ) → j < count → pos (table j).pid ≢ pid)
            × (inspect_pid t pid count table ≡ not_found pid))
          ⊎ ((x : ℕ) × (x < count)
              × (pos (table x).pid ≡ pid)
              × ((j : ℕ) → j < x → pos (table j).pid ≢ pid)
              × (inspect_pid t pid count table ≡ report t pid (table x)))
    go none e f = inl ((λ j lt. f j (omega arith) (omega (arith, lt))), rw (inspect_pid, e) refl)
    go (some out) e (x, ge, lt, p, first, said) = inr (
      x,
      omega (arith, lt),
      p,
      (λ j below. first j (omega arith) below),
      rw (inspect_pid, e, said) refl,
    )
