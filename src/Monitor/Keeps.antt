-- ===== src/Monitor/Keeps.antt =====
-- A condition on the outside world that the calls of src/monitor.c and src/timer.c keep is kept by both.
use minios_lab_edwin_jose.Base.{
  ℕ, Bool, true, false, Option, none, some, List, if-rule, if◌then◌else◌,
}
use minios_lab_edwin_jose.Base.Int.{ℤ}
use minios_lab_edwin_jose.Machine.{
  Machine, CString, Itimerval, wrote, would_block, broken, WriteResult,
}
use minios_lab_edwin_jose.Monitor.{
  Monitor, socket_path, try_connect, send, send_if_connected, emit_line, get_timestamp, set_enabled,
  emit_switch, emit_created, emit_terminated, emit_slice_changed,
}

pub record Keeps {W D : Type 0} (m : Machine W D) (P : W → Type 0) : Type 0 where
  pub on_clock_gettime : (w : W) → P w → P (m.clock_gettime w).1
  pub on_setitimer : (v : Itimerval) (w : W) → P w → P (m.setitimer v w)
  pub on_socket : (w : W) → P w → P (m.socket w).1
  pub on_connect : (fd : ℕ) (path : CString) (w : W) → P w → P (m.connect fd path w).1
  pub on_set_nonblock : (fd : ℕ) (w : W) → P w → P (m.set_nonblock fd w)
  pub on_write : (fd : ℕ) (bytes : List ℕ) (w : W) → P w → P (m.write fd bytes w).1
  pub on_close : (fd : ℕ) (w : W) → P w → P (m.close fd w)

module _ {W D : Type 0} (m : Machine W D) (P : W → Type 0) (law : Keeps m P) where
  try_connect-Keeps : (mon : Monitor) (w : W) → P w → P (try_connect m mon w).2
  unfolding try_connect
  try_connect-Keeps mon w h = go (m.socket w).0 (law.on_socket w h)
    where
      go :
          (o : Option ℕ)
          → P (m.socket w).1
          → P
              (elim o as (λ _. Bool × Monitor × W) [
                | none ↦ (false, mon, (m.socket w).1)
                | some n ↦
                    let (reached, w2) = m.connect n socket_path (m.socket w).1 in
                    if reached
                    then (true, record mon { sock_fd = some n }, m.set_nonblock n w2)
                    else (false, mon, m.close n w2)
              ]).2
      go none k = k
      go (some n) k =
          let (reached, w2) = m.connect n socket_path (m.socket w).1 in
          let k2 = law.on_connect n socket_path (m.socket w).1 k in
          if-rule (λ (r : Bool × Monitor × W). P r.2) reached
            (true, record mon { sock_fd = some n }, m.set_nonblock n w2) (false, mon, m.close n w2)
            (λ _. law.on_set_nonblock n w2 k2) (λ _. law.on_close n w2 k2)

  send-Keeps : (fd : ℕ) (json : List ℕ) (mon : Monitor) (w : W) → P w → P (send m fd json mon w).1
  unfolding send
  send-Keeps fd json mon w h = go (m.write fd json w).0 (law.on_write fd json w h)
    where
      go :
          (r : WriteResult)
          → P (m.write fd json w).1
          → P
              (elim r as (λ _. Monitor × W) [
                | wrote n ↦ (mon, (m.write fd json w).1)
                | would_block ↦ (mon, (m.write fd json w).1)
                | broken ↦ (record mon { sock_fd = none }, m.close fd (m.write fd json w).1)
              ]).1
      go (wrote n) k = k
      go would_block k = k
      go broken k = law.on_close fd (m.write fd json w).1 k

  emit_line-at :
      (json : List ℕ) (fd : Option ℕ) (on : Bool) (w : W)
      → P w
      → P (emit_line m json (record { sock_fd = fd; enabled = on }) w).1
  unfolding emit_line send_if_connected
  emit_line-at json fd false w h = h
  emit_line-at json (some fd) true w h =
      send-Keeps fd json (record { sock_fd = some fd; enabled = true }) w h
  emit_line-at json none true w h =
      let (reached, mon1, w1) = try_connect m (record { sock_fd = none; enabled = true }) w in
      let h1 = try_connect-Keeps (record { sock_fd = none; enabled = true }) w h in
      if-rule (λ (r : Monitor × W). P r.1) reached (send_if_connected m json mon1 w1) (mon1, w1)
        (λ _. connected mon1.sock_fd mon1.enabled w1 h1) (λ _. h1)
    where
      connected :
          (o : Option ℕ) (b : Bool) (w1 : W)
          → P w1
          → P (send_if_connected m json (record { sock_fd = o; enabled = b }) w1).1
      connected none b w1 h1 = h1
      connected (some n) b w1 h1 =
          send-Keeps n json (record { sock_fd = some n; enabled = b }) w1 h1

  event-Keeps :
      (json : List ℕ) (mon : Monitor) (w : W)
      → P w
      → P (emit_line m json mon (m.clock_gettime w).1).1
  event-Keeps json mon w h =
      emit_line-at json mon.sock_fd mon.enabled (m.clock_gettime w).1 (law.on_clock_gettime w h)

  pub emit_switch-Keeps :
      (from_pid to_pid : ℕ) (slice_ms : ℤ) (mon : Monitor) (w : W)
      → P w
      → P (emit_switch m from_pid to_pid slice_ms mon w).1
  unfolding emit_switch get_timestamp
  emit_switch-Keeps from_pid to_pid slice_ms mon w h = event-Keeps _ mon w h

  pub emit_created-Keeps :
      (pid : ℕ) (name : CString) (mon : Monitor) (w : W) → P w → P (emit_created m pid name mon w).1
  unfolding emit_created get_timestamp
  emit_created-Keeps pid name mon w h = event-Keeps _ mon w h

  pub emit_terminated-Keeps :
      (pid : ℕ) (cpu_ms : D) (switches : ℕ) (mon : Monitor) (w : W)
      → P w
      → P (emit_terminated m pid cpu_ms switches mon w).1
  unfolding emit_terminated get_timestamp
  emit_terminated-Keeps pid cpu_ms switches mon w h = event-Keeps _ mon w h

  pub emit_slice_changed-Keeps :
      (old_ms new_ms : ℤ) (mon : Monitor) (w : W)
      → P w
      → P (emit_slice_changed m old_ms new_ms mon w).1
  unfolding emit_slice_changed get_timestamp
  emit_slice_changed-Keeps old_ms new_ms mon w h = event-Keeps _ mon w h

  pub set_enabled-Keeps : (val : Bool) (mon : Monitor) (w : W) → P w → P (set_enabled m val mon w).1
  unfolding set_enabled
  set_enabled-Keeps false mon w h = h
  set_enabled-Keeps true mon w h = at mon.sock_fd mon.enabled
    where
      at :
          (fd : Option ℕ) (on : Bool)
          → P (set_enabled m true (record { sock_fd = fd; enabled = on }) w).1
      at none on = try_connect-Keeps (record { sock_fd = none; enabled = true }) w h
      at (some fd) on = h
