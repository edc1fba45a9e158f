-- ===== src/Console/Table.antt =====
-- The printing functions of src/pcb.c and of src/ready_queue.c.
pub mod Queue
use minios_lab_edwin_jose.Base.{
  ℕ, zero, suc, ◌+◌, ◌-◌, ◌%◌, ◌==◌, ltb, Bool, true, false, List, [], ◌∷◌, ◌++◌, if◌then◌else◌,
}
use minios_lab_edwin_jose.Base.Int.{pos}
use minios_lab_edwin_jose.Base.Text.{codes}
use minios_lab_edwin_jose.Machine.{text, dec, str, fixed}
use minios_lab_edwin_jose.Pcb.{Pcb, ProcState, c_string}
use minios_lab_edwin_jose.ReadyQueue.{ReadyQueue}
use minios_lab_edwin_jose.Fifo.{max_processes}
use minios_lab_edwin_jose.Console.{Out, plain, left, right, say, ansi, reset}

pub state_name : ProcState → List ℕ
state_name ProcState.new = ansi (codes "[34m") ++ codes "NEW" ++ reset
state_name ProcState.ready = ansi (codes "[33m") ++ codes "READY" ++ reset
state_name ProcState.running = ansi (codes "[32m") ++ codes "RUNNING" ++ reset
state_name ProcState.blocked = ansi (codes "[31m") ++ codes "BLOCKED" ++ reset
state_name ProcState.terminated = ansi (codes "[90m") ++ codes "TERMINATED" ++ reset

-- The line under the heading: U+2500 so many times.
rule : ℕ → List ℕ
rule zero = []
rule (suc n) = 226 ∷ 148 ∷ 128 ∷ rule n

module _ {D : Type 0} where
  pub pcb_print : Pcb D → List (Out D)
  pcb_print p =
      say (codes "  PID: ")
      ∷ left 6 (dec (pos p.pid))
      ∷ say (codes "  Nombre: ")
      ∷ left 16 (str (c_string p.name))
      ∷ say (codes "  Estado: ")
      ∷ left 10 (str (state_name p.state))
      ∷ say (codes "  CPU: ")
      ∷ right 8 (fixed 1 p.cpu_time_ms)
      ∷ say (codes " ms  Espera: ")
      ∷ right 8 (fixed 1 p.wait_time_ms)
      ∷ say (codes " ms  Switches: ")
      ∷ plain (dec (pos p.context_switches))
      ∷ say (codes "\n")
      ∷ []

  heading : List (Out D)
  unfolding rule
  heading =
      left 6 (text (codes "PID"))
      ∷ say (codes " ")
      ∷ left 16 (text (codes "NOMBRE"))
      ∷ say (codes " ")
      ∷ left 12 (text (codes "ESTADO"))
      ∷ say (codes " ")
      ∷ right 10 (text (codes "CPU(ms)"))
      ∷ say (codes " ")
      ∷ right 10 (text (codes "ESPERA(ms)"))
      ∷ say (codes " ")
      ∷ right 9 (text (codes "SWITCHES"))
      ∷ say (codes "\n")
      ∷ say (rule 69 ++ codes "\n")
      ∷ []

  -- One round of the loop of `pcb_print_table`.
  pub row : Pcb D → List (Out D)
  row p =
      left 6 (dec (pos p.pid))
      ∷ say (codes " ")
      ∷ left 16 (str (c_string p.name))
      ∷ say (codes " ")
      ∷ left 12 (str (state_name p.state))
      ∷ say (codes " ")
      ∷ right 10 (fixed 1 p.cpu_time_ms)
      ∷ say (codes " ")
      ∷ right 10 (fixed 1 p.wait_time_ms)
      ∷ say (codes " ")
      ∷ right 9 (dec (pos p.context_switches))
      ∷ say (codes "\n")
      ∷ []

  -- The loop over process_table[i .. i + rounds).
  pub rows : (rounds i : ℕ) → (ℕ → Pcb D) → List (Out D)
  rows zero i table = []
  rows (suc k) i table = row (table i) ++ rows k (i + 1) table

  pub pcb_print_table : (process_count : ℕ) → (ℕ → Pcb D) → List (Out D)
  pcb_print_table process_count table = heading ++ rows process_count 0 table

  -- " → ", in UTF-8
  abbrev pub arrow : Out D
  arrow = say (32 ∷ 226 ∷ 134 ∷ 146 ∷ 32 ∷ [])

  -- The loop of `rq_print`, `rounds` rounds from `i` on.
  pub rq_entries : (rounds i : ℕ) → ReadyQueue → (ℕ → Pcb D) → List (Out D)
  rq_entries zero i q table = []
  rq_entries (suc k) i q table =
      let idx = q.slots ((q.front + i) % max_processes) in
      say (codes "PID ")
        ∷ plain (dec (pos (table idx).pid))
        ∷ (if ltb i (q.count - 1) then arrow ∷ [] else [])
      ++ rq_entries k (i + 1) q table

  pub rq_print : ReadyQueue → (ℕ → Pcb D) → List (Out D)
  rq_print q table =
      if q.count == 0
      then say (codes "  Ready Queue: [vac" ++ 195 ∷ 173 ∷ codes "a]\n") ∷ []
      else say (codes "  Ready Queue: ") ∷ rq_entries q.count 0 q table ++ say (codes "\n") ∷ []
