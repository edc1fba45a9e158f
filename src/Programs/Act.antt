-- ===== src/Programs/Act.antt =====
-- What the sample programs of programs/ do one after the other: the lines that they print, those that they write
-- to a file, and their sleeps, in microseconds. A line is flushed as it is printed.
use minios_lab_edwin_jose.Base.{ℕ, Option, none, some, List, ◌∷◌}
use minios_lab_edwin_jose.Base.Int.{ℤ, pos}
use minios_lab_edwin_jose.Base.Text.{codes}
use minios_lab_edwin_jose.Machine.{CString, Piece, text, dec}

pub data Act (D : Type 0) : Type 0 where
  print : List (Piece D) → Act D
  log : List (Piece D) → Act D
  sleep : ℤ → Act D

-- `[name:%d] ` with the pid, before the rest of a line.
abbrev pub tagged : {D : Type 0} → CString → ℕ → List (Piece D) → Act D
tagged name pid line = print (text name ∷ dec (pos pid) ∷ text (codes "] ") ∷ line)

-- The number that a program works with: that of its argument, or the one it begins with.
abbrev pub given : (CString → ℤ) → ℤ → Option CString → ℤ
given atoi preset none = preset
given atoi preset (some arg) = atoi arg
