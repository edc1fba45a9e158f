-- ===== src/Console/Report.antt =====
-- What `help`, `inspect` and a search for a process print (src/shell.c).
pub mod Inspect
use minios_lab_edwin_jose.Base.{
  ℕ, zero, suc, ◌+◌, Bool, true, false, not, ◌&&◌, Option, none, some, List, [], ◌∷◌, ◌++◌,
  if◌then◌else◌,
}
use minios_lab_edwin_jose.Base.Int.{ℤ, pos, eq_ℤ}
use minios_lab_edwin_jose.Base.Text.{codes}
use minios_lab_edwin_jose.Machine.{dec, str, fixed}
use minios_lab_edwin_jose.Pcb.{Pcb, c_string}
use minios_lab_edwin_jose.Platform.{Platform, registers_available}
use minios_lab_edwin_jose.Console.{Out, plain, right, hex16, say, ansi, color, uncolored}
use minios_lab_edwin_jose.Console.Table.{state_name}

module _ {D : Type 0} where
  pub help : (colors : Bool) → List (Out D)
  help colors =
      say (codes "\n")
      ∷ color colors (ansi (codes "[1m"))
      ∷ say (codes "Comandos disponibles:")
      ∷ uncolored colors
      ∷ say (codes "\n")
      ∷ say (codes "  run <binario>       Lanzar un proceso nuevo\n")
      ∷ say (codes "  ps                  Mostrar tabla de procesos\n")
      ∷ say (codes "  kill <pid>          Terminar un proceso\n")
      ∷ say (codes "  slice <ms>          Cambiar time slice (50-5000 ms)\n")
      ∷ say (codes "  inspect <pid>       Ver registros de un proceso\n")
      ∷ say (codes "  runpair <nombre>    Lanzar par de procesos comunicantes\n")
      ∷ say (codes "  stats               Mostrar metricas del scheduler\n")
      ∷ say (codes "  log on|off          Activar/desactivar emision de eventos JSON\n")
      ∷ say (codes "  help                Mostrar esta ayuda\n")
      ∷ say (codes "  exit                Terminar todos los procesos y salir\n")
      ∷ say (codes "\n")
      ∷ []

  banner_line : (colors : Bool) → List ℕ → List (Out D)
  banner_line colors bytes =
      color colors (ansi (codes "[34m")) ∷ say bytes ∷ uncolored colors ∷ say (codes "\n") ∷ []

  -- What `shell_run` prints before its loop.
  pub banner : (colors : Bool) → List (Out D)
  unfolding banner_line
  banner colors =
      banner_line colors (codes "+----------------------------------+")
      ++ banner_line colors (codes "|       miniOS v1.1                |")
      ++ banner_line colors (codes "|   Kept you waiting, huh?         |")
      ++ banner_line colors (codes "|   Escribe 'help' para ayuda      |")
      ++ banner_line colors (codes "+----------------------------------+")
      ++ say (codes "\n") ∷ []

  pub prompt : (colors : Bool) → List (Out D)
  prompt colors =
      color colors (ansi (codes "[1m"))
      ∷ color colors (ansi (codes "[32m"))
      ∷ say (codes "miniOS>")
      ∷ uncolored colors
      ∷ say (codes " ")
      ∷ []

  -- "Proceso PID <pid><rest>"
  process : ℤ → List ℕ → List (Out D)
  process pid rest = say (codes "Proceso PID ") ∷ plain (dec pid) ∷ say rest ∷ []

  pub not_found : ℤ → List (Out D)
  unfolding process
  not_found pid = process pid (codes " no encontrado.\n")

  pub killed : ℤ → List (Out D)
  unfolding process
  killed pid = process pid (codes " terminado.\n")

  -- The loop over the registers from number `r` on.
  pub register_lines : ℕ → List ℕ → List (Out D)
  register_lines r [] = []
  register_lines r (value ∷ values) =
      say (codes "  Reg[")
      ∷ right 2 (dec (pos r))
      ∷ say (codes "]:         0x")
      ∷ hex16 value
      ∷ say (codes "\n")
      ∷ register_lines (r + 1) values

  -- What `inspect` says of the registers.
  pub registers_part : Platform → Pcb D → List (Out D)
  unfolding register_lines
  registers_part t p =
      if registers_available t && p.regs_valid
      then say (codes "\n  === Registros ===\n")
        ∷ say (codes "  Program Counter: 0x")
        ∷ hex16 p.registers.program_counter
        ∷ say (codes "\n")
        ∷ say (codes "  Stack Pointer:   0x")
        ∷ hex16 p.registers.stack_pointer
        ∷ say (codes "\n")
        ∷ register_lines 0 p.registers.general_regs
      else if not (registers_available t)
      then say (codes "\n  [Registros no disponibles -- SIP habilitado en macOS]\n")
        ∷ say (codes "  Los registros estaran disponibles en WSL2/Linux.\n")
        ∷ []
      else say (codes "\n  [Registros aun no capturados]\n") ∷ []

  -- The body of the loop of `inspect` at the entry with the pid.
  pub report : Platform → ℤ → Pcb D → List (Out D)
  report t target_pid p =
      say (codes "\n=== PCB de PID ")
        ∷ plain (dec target_pid)
        ∷ say (codes " (")
        ∷ plain (str (c_string p.name))
        ∷ say (codes ") ===\n  Estado:           ")
        ∷ plain (str (state_name p.state))
        ∷ say (codes "\n  CPU Time:         ")
        ∷ plain (fixed 1 p.cpu_time_ms)
        ∷ say (codes " ms\n  Waiting Time:     ")
        ∷ plain (fixed 1 p.wait_time_ms)
        ∷ say (codes " ms\n  Context Switches: ")
        ∷ plain (dec (pos p.context_switches))
        ∷ say (codes "\n")
        ∷ registers_part t p
      ++ say (codes "\n") ∷ []

  -- The loop over process_table[i .. i + rounds); `none` is `found == 0`.
  pub inspect_from : Platform → ℤ → (rounds i : ℕ) → (ℕ → Pcb D) → Option (List (Out D))
  inspect_from t target_pid zero i table = none
  inspect_from t target_pid (suc k) i table =
      let later = inspect_from t target_pid k (i + 1) table in
      if eq_ℤ (pos (table i).pid) target_pid then some (report t target_pid (table i)) else later

  pub inspect_pid : Platform → ℤ → (process_count : ℕ) → (ℕ → Pcb D) → List (Out D)
  inspect_pid t target_pid process_count table =
      elim (inspect_from t target_pid process_count 0 table) [
        | none ↦ not_found target_pid
        | some shown ↦ shown
      ]
