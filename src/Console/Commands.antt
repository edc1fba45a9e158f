-- ===== src/Console/Commands.antt =====
-- What the commands of src/shell.c print, from the state in which they are given. Messages to the
-- standard error output (`perror`) and those of the other files are left out.
pub mod Kill
use minios_lab_edwin_jose.Base.{
  ℕ, zero, suc, ◌+◌, Bool, true, false, not, ◌&&◌, ◌||◌, Option, none, some, List, [], ◌∷◌, ◌++◌,
  ◌==◌, if◌then◌else◌,
}
use minios_lab_edwin_jose.Base.Int.{ℤ, pos, negsuc, ltb_ℤ}
use minios_lab_edwin_jose.Base.Text.{codes}
use minios_lab_edwin_jose.Machine.{Machine, CString, Piece, dec, str, fixed, sigkill}
use minios_lab_edwin_jose.Pcb.{c_string, is_running}
use minios_lab_edwin_jose.Platform.{Platform}
use minios_lab_edwin_jose.ReadyQueue
use minios_lab_edwin_jose.Timer
use minios_lab_edwin_jose.Scheduler.State
use minios_lab_edwin_jose.Scheduler.State.{System, in_world, block_chld, block_alrm}
use minios_lab_edwin_jose.Scheduler.Create.{create_process}
use minios_lab_edwin_jose.CommandLine.{equal, is_blank, Command}
use minios_lab_edwin_jose.Shell.{find_live, block_alarm, cmd_stats, pair_paths, run_created}
use minios_lab_edwin_jose.Console.{Out, plain, say, red, uncolored}
use minios_lab_edwin_jose.Console.Table.{pcb_print_table, rq_print}
use minios_lab_edwin_jose.Console.Report.{help, not_found, killed, inspect_pid}

module _ {W D : Type 0} (m : Machine W D) where
  -- One line of `stats`: a name in color, and a value.
  metric : Bool → List ℕ → List ℕ → Piece D → List ℕ → List (Out D)
  metric colors name gap value unit =
      red colors ∷ say name ∷ uncolored colors ∷ say gap ∷ plain value ∷ say unit ∷ []

  pub print_stats : (colors : Bool) → System W D → List (Out D)
  unfolding metric
  print_stats colors s =
      let (sums, averages, s1) = cmd_stats m s in
      let ms = codes " ms\n" in
      say (codes "\n")
        ∷ red colors
        ∷ say (codes "=== Estadisticas del Scheduler ===")
        ∷ uncolored colors
        ∷ say (codes "\n")
        ∷ metric colors (codes "  Procesos activos:") (codes "      ") (dec (pos sums.active))
            (codes "\n")
      ++ metric colors (codes "  Procesos terminados:") (codes "   ") (dec (pos sums.terminated))
          (codes "\n")
      ++ metric colors (codes "  Time slice actual:") (codes "     ")
          (dec (Timer.get_slice s.timer)) ms
      ++ metric colors (codes "  CPU total acumulado:") (codes "   ") (fixed 1 sums.total_cpu) ms
      ++ metric colors (codes "  Context switches:") (codes "      ")
          (dec (pos sums.total_switches)) (codes "\n")
      ++ (elim averages [
        | none ↦ []
        | some (cpu, wait) ↦
            metric colors (codes "  Avg CPU por proceso:") (codes "   ") (fixed 1 cpu) ms
            ++ metric colors (codes "  Avg espera:") (codes "            ") (fixed 1 wait) ms
      ])
      ++ say (codes "\n") ∷ []

  pub print_ps : (colors : Bool) → System W D → List (Out D)
  print_ps colors s =
      if s.process_count == 0
      then say (codes "No hay procesos.\n") ∷ []
      else say (codes "\n") ∷ pcb_print_table s.process_count s.process_table
        ++ say (codes "\n") ∷ red colors ∷ rq_print s.rq s.process_table
        ++ uncolored colors ∷ []

  -- What the search for the pid gave; a failure of the signal is told on the standard error output.
  pub print_kill_found : ℕ → Option ℕ → System W D → List (Out D)
  print_kill_found pid none s = not_found (pos pid)
  print_kill_found pid (some i) s =
      let s1 =
        if is_running (s.process_table i).state
        then s
        else record s { rq = (ReadyQueue.remove i s.rq).1 } in
      if (State.kill m pid sigkill s1).0 then killed (pos pid) else []

  pub print_kill_parsed : ℤ → System W D → List (Out D)
  print_kill_parsed (pos zero) s = say (codes "PID invalido.\n") ∷ []
  print_kill_parsed (pos (suc n)) s =
      let s1 = block_chld (block_alrm s) in
      print_kill_found (suc n) (find_live s1.process_count 0 (suc n) s1.process_table) s1
  print_kill_parsed (negsuc n) s = say (codes "PID invalido.\n") ∷ []

  pub print_kill : Option CString → System W D → List (Out D)
  print_kill none s = say (codes "Uso: kill <pid>\n") ∷ []
  print_kill (some arg) s =
      if is_blank (some arg)
      then say (codes "Uso: kill <pid>\n") ∷ []
      else print_kill_parsed (m.atoi arg) s

  -- The slice in milliseconds, before and after.
  slice_line : List ℕ → ℤ → List (Out D)
  slice_line before ms = say before ∷ plain (dec ms) ∷ say (codes " ms\n") ∷ []

  pub print_slice : Option CString → System W D → List (Out D)
  unfolding slice_line
  print_slice none s = slice_line (codes "Time slice actual: ") (Timer.get_slice s.timer)
  print_slice (some arg) s =
      let ms = m.atoi arg in
      if is_blank (some arg)
      then slice_line (codes "Time slice actual: ") (Timer.get_slice s.timer)
      else if ltb_ℤ ms (pos 50) || ltb_ℤ (pos 5000) ms
      then say (codes "Error: time slice debe estar entre 50 y 5000 ms\n") ∷ []
      else slice_line (codes "Time slice cambiado a ") ms

  pub print_inspect : Platform → Option CString → System W D → List (Out D)
  print_inspect t none s = say (codes "Uso: inspect <pid>\n") ∷ []
  print_inspect t (some arg) s =
      if is_blank (some arg)
      then say (codes "Uso: inspect <pid>\n") ∷ []
      else inspect_pid t (m.atoi arg) s.process_count s.process_table

  pub print_log : Option CString → System W D → List (Out D)
  print_log none s =
      say (codes "Log esta ")
      ∷ plain (str (if s.monitor.enabled then codes "activado" else codes "desactivado"))
      ∷ say (codes ". Uso: log on|off\n")
      ∷ []
  print_log (some arg) s =
      if is_blank (some arg)
      then say (codes "Log esta ")
        ∷ plain (str (if s.monitor.enabled then codes "activado" else codes "desactivado"))
        ∷ say (codes ". Uso: log on|off\n")
        ∷ []
      else if equal arg (codes "on")
      then []
      else if equal arg (codes "off")
      then say (codes "Log desactivado.\n") ∷ []
      else say (codes "Uso: log on|off\n") ∷ []

module _ {W D : Type 0} (m : Machine W D) (t : Platform) where
  -- After `scheduler_create_process`.
  pub print_created : Option ℕ → System W D → List (Out D)
  print_created none s = []
  print_created (some idx) s =
      let p = (run_created m t (some idx) s).process_table idx in
      say (codes "Proceso creado: PID ")
      ∷ plain (dec (pos p.pid))
      ∷ say (codes " (")
      ∷ plain (str (c_string p.name))
      ∷ say (codes ")\n")
      ∷ []

  pub print_run : Option CString → System W D → List (Out D)
  print_run none s = say (codes "Uso: run <binario> [argumento]\n") ∷ []
  print_run (some path) s =
      let (found, w) = m.access path s.world in
      let (idx, s1) = create_process m t path (in_world s w) in
      if is_blank (some path)
      then say (codes "Uso: run <binario> [argumento]\n") ∷ []
      else if found
      then print_created idx s1
      else []

module _ {W D : Type 0} (m : Machine W D) where
  -- A path of a pair that cannot be run.
  missing : CString → List (Out D)
  missing path =
      say (codes "Error: '")
      ∷ plain (str path)
      ∷ say (codes "' no encontrado. Ejecuta 'make programs' primero.\n")
      ∷ []

  pairs : List (Out D)
  pairs = say (codes "  Pares disponibles: ping_pong, productor_consumidor\n") ∷ []

  pub print_launch : CString → CString → CString → CString → W → List (Out D)
  unfolding missing
  print_launch name server_path client_path sock_path w =
      let (server_found, w1) = m.access server_path w in
      let (client_found, w2) = m.access client_path w1 in
      if not server_found
      then missing server_path
      else if not client_found
      then missing client_path
      else say (codes "Lanzando par '")
        ∷ plain (str name)
        ∷ say (codes "' con socket ")
        ∷ plain (str sock_path)
        ∷ say (codes "\n")
        ∷ []

  pub print_runpair : Option CString → System W D → List (Out D)
  unfolding pairs
  print_runpair none s = say (codes "Uso: runpair <nombre>\n") ∷ pairs
  print_runpair (some name) s =
      if is_blank (some name)
      then say (codes "Uso: runpair <nombre>\n") ∷ pairs
      else elim (pair_paths name) [
        | none ↦ say (codes "Par desconocido: '") ∷ plain (str name) ∷ say (codes "'\n") ∷ pairs
        | some (server_path, client_path, sock_path) ↦
            print_launch name server_path client_path sock_path s.world
      ]

module _ {W D : Type 0} (m : Machine W D) (t : Platform) where
  -- The branches of `shell_run`; `cmd` is the first word of the line.
  pub answer : (colors : Bool) (cmd : CString) → Command → System W D → List (Out D)
  answer colors cmd Command.help s = help colors
  answer colors cmd (Command.run arg arg2) s = print_run m t arg (block_alarm s)
  answer colors cmd Command.ps s = print_ps m colors (block_alarm s)
  answer colors cmd (Command.kill arg) s = print_kill m arg s
  answer colors cmd (Command.slice arg) s = print_slice m arg s
  answer colors cmd (Command.inspect arg) s = print_inspect m t arg s
  answer colors cmd (Command.runpair arg) s = print_runpair m arg (block_alarm s)
  answer colors cmd Command.stats s = print_stats m colors s
  answer colors cmd (Command.log arg) s = print_log m arg s
  answer colors cmd Command.exit s = say (codes "Hasta luego.\n") ∷ []
  answer colors cmd Command.unknown s =
      say (codes "Comando desconocido: '")
      ∷ plain (str cmd)
      ∷ say (codes "'. Escribe 'help' para ver comandos.\n")
      ∷ []
