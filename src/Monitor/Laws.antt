-- ===== src/Monitor/Laws.antt =====
-- Emitting an event waits for no child.
use minios_lab_edwin_jose.Base.{ℕ, ◌≤◌, List, arith}
use minios_lab_edwin_jose.Base.Int.{ℤ}
use minios_lab_edwin_jose.Machine.{Machine, CountsChildren}
use minios_lab_edwin_jose.Monitor.{
  Monitor, try_connect, send, send_if_connected, emit_line, get_timestamp, emit_terminated,
  emit_switch,
}

module _ {W D : Type 0} (m : Machine W D) (children : W → ℕ) (law : CountsChildren m children) where
  try_connect-le : (mon : Monitor) (w : W) → children (try_connect m mon w).2 ≤ children w
  unfolding try_connect
  try_connect-le mon w =
      grind (arith, law.socket_le, law.connect_le, law.close_le, law.set_nonblock_le)

  send-le :
      (fd : ℕ) (json : List ℕ) (mon : Monitor) (w : W)
      → children (send m fd json mon w).1 ≤ children w
  unfolding send
  send-le fd json mon w = grind (arith, law.write_le, law.close_le)

  send_if_connected-le :
      (json : List ℕ) (mon : Monitor) (w : W)
      → children (send_if_connected m json mon w).1 ≤ children w
  unfolding send_if_connected
  send_if_connected-le json mon w = grind (arith, send-le)

  emit_line-le :
      (json : List ℕ) (mon : Monitor) (w : W) → children (emit_line m json mon w).1 ≤ children w
  unfolding emit_line
  emit_line-le json mon w = grind (arith, try_connect-le, send_if_connected-le, send-le)

  pub emit_terminated-le :
      (pid : ℕ) (cpu_ms : D) (switches : ℕ) (mon : Monitor) (w : W)
      → children (emit_terminated m pid cpu_ms switches mon w).1 ≤ children w
  unfolding emit_terminated get_timestamp
  emit_terminated-le pid cpu_ms switches mon w = omega (arith, emit_line-le, law.clock_gettime_le w)

  pub emit_switch-le :
      (from_pid to_pid : ℕ) (slice_ms : ℤ) (mon : Monitor) (w : W)
      → children (emit_switch m from_pid to_pid slice_ms mon w).1 ≤ children w
  unfolding emit_switch get_timestamp
  emit_switch-le from_pid to_pid slice_ms mon w =
      omega (arith, emit_line-le, law.clock_gettime_le w)
