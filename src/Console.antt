-- ===== src/Console.antt =====
-- What the program writes to the terminal with `printf`, as lists of formatted parts: the colors of
-- src/shell.c, and (below) the tables of src/pcb.c and src/ready_queue.c and the answers of the commands.
pub mod Table
pub mod Report
pub mod Commands
use minios_lab_edwin_jose.Base.{ℕ, Bool, true, false, List, [], ◌∷◌, ◌++◌}
use minios_lab_edwin_jose.Base.Text.{codes}
use minios_lab_edwin_jose.Machine.{Piece, text, str}

-- `left` and `right` pad to a width (`%-6d`, `%10s`); `hex16` is `%016llx`.
pub data Out (D : Type 0) : Type 0 where
  plain : Piece D → Out D
  left : ℕ → Piece D → Out D
  right : ℕ → Piece D → Out D
  hex16 : ℕ → Out D

abbrev pub say : {D : Type 0} → List ℕ → Out D
say bytes = plain (text bytes)

-- An escape sequence of the terminal.
abbrev pub ansi : List ℕ → List ℕ
ansi code = 27 ∷ code

abbrev pub reset : List ℕ
reset = ansi (codes "[0m")

-- COLOR(code): nothing where the terminal shows no colors.
abbrev pub color : {D : Type 0} → Bool → List ℕ → Out D
color true code = plain (str code)
color false code = plain (str [])

abbrev pub red : {D : Type 0} → Bool → Out D
red colors = color colors (ansi (codes "[31m"))

abbrev pub uncolored : {D : Type 0} → Bool → Out D
uncolored colors = color colors reset
