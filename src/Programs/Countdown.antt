-- ===== src/Programs/Countdown.antt =====
-- programs/countdown.c: a number a second, down to 1.
use minios_lab_edwin_jose.Base.{ℕ, zero, suc, Option, List, [], ◌∷◌, ◌++◌}
use minios_lab_edwin_jose.Base.Int.{ℤ, pos, pos_part}
use minios_lab_edwin_jose.Base.Text.{codes}
use minios_lab_edwin_jose.Machine.{CString, text, dec}
use minios_lab_edwin_jose.Programs.Act.{Act, sleep, tagged, given}

module _ {D : Type 0} where
  -- The loop from `i` down.
  pub count_from : (pid i : ℕ) → List (Act D)
  count_from pid zero = []
  count_from pid (suc i) =
      tagged (codes "[countdown:") pid (dec (pos (suc i)) ∷ text (codes "\n") ∷ [])
      ∷ sleep (pos 1_000_000)
      ∷ count_from pid i

  pub countdown : (CString → ℤ) → ℕ → Option CString → List (Act D)
  countdown atoi pid arg =
      count_from pid (pos_part (given atoi (pos 10) arg))
      ++ tagged (codes "[countdown:") pid (text (codes "Terminado!\n") ∷ []) ∷ []
