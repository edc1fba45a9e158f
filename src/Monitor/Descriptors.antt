-- ===== src/Monitor/Descriptors.antt =====
-- The sockets that src/monitor.c opens and closes.
use minios_lab_edwin_jose.Base.{
  ℕ, ◌==◌, ◌≡◌, ◌∙◌, refl, sym, ap, not, ◌&&◌, ◌||◌, eq-cases, Bool, true, false, Option, none,
  some, List, [], ◌∷◌, Option-cases, Bool-cases, inl, inr, arith, if-rule,
}
use minios_lab_edwin_jose.Base.Int.{ℤ}
use minios_lab_edwin_jose.Machine.{Machine, CString, WriteResult, wrote, would_block, broken}
use minios_lab_edwin_jose.Monitor.{
  Monitor, socket_path, try_connect, send, send_if_connected, emit_line, get_timestamp, close,
  set_enabled, emit_switch, emit_created, emit_terminated, emit_registers, emit_slice_changed,
}

-- `opened w fd` tells whether the descriptor `fd` is open: `socket` returns one that is not open and opens it,
-- `close` closes the one that it is given, if it is open, and none of the other calls of the monitor opens or
-- closes any.
pub record TracksOpen {W D : Type 0} (m : Machine W D) (opened : W → ℕ → Bool) : Type 0 where
  pub socket_unused : (w : W) (fd : ℕ) → (m.socket w).0 ≡ some fd → opened w fd ≡ false
  pub socket_some :
      (w : W) (fd : ℕ)
      → (m.socket w).0 ≡ some fd
      → (k : ℕ) → opened (m.socket w).1 k ≡ ((fd == k) || opened w k)
  pub socket_none : (w : W) → (m.socket w).0 ≡ none → (k : ℕ) → opened (m.socket w).1 k ≡ opened w k
  pub close_only :
      (fd : ℕ) (w : W) (k : ℕ) → opened (m.close fd w) k ≡ (not (fd == k) && opened w k)
  pub connect_same :
      (fd : ℕ) (path : CString) (w : W) (k : ℕ) → opened (m.connect fd path w).1 k ≡ opened w k
  pub set_nonblock_same : (fd : ℕ) (w : W) (k : ℕ) → opened (m.set_nonblock fd w) k ≡ opened w k
  pub write_same :
      (fd : ℕ) (bytes : List ℕ) (w : W) (k : ℕ) → opened (m.write fd bytes w).1 k ≡ opened w k
  pub clock_gettime_same : (w : W) (k : ℕ) → opened (m.clock_gettime w).1 k ≡ opened w k

-- The functions of monitor.h that use the connection.
pub data Call (D : Type 0) : Type 0 where
  closing : Call D
  enabling : Bool → Call D
  switched : (from_pid to_pid : ℕ) (slice_ms : ℤ) → Call D
  created : (pid : ℕ) (name : CString) → Call D
  terminated : (pid : ℕ) (cpu_ms : D) (switches : ℕ) → Call D
  registers : (pid pc sp : ℕ) → Call D
  slice_changed : (old_ms new_ms : ℤ) → Call D

module _ {W D : Type 0} (m : Machine W D) where
  abbrev pub perform_call : Call D → Monitor → W → Monitor × W
  perform_call closing mon w = close m mon w
  perform_call (enabling val) mon w = set_enabled m val mon w
  perform_call (switched from_pid to_pid slice_ms) mon w =
      emit_switch m from_pid to_pid slice_ms mon w
  perform_call (created pid name) mon w = emit_created m pid name mon w
  perform_call (terminated pid cpu_ms switches) mon w = emit_terminated m pid cpu_ms switches mon w
  perform_call (registers pid pc sp) mon w = emit_registers m pid pc sp mon w
  perform_call (slice_changed old_ms new_ms) mon w = emit_slice_changed m old_ms new_ms mon w

  abbrev pub perform_calls : List (Call D) → Monitor → W → Monitor × W
  perform_calls [] mon w = (mon, w)
  perform_calls (c ∷ cs) mon w = let (mon1, w1) = perform_call c mon w in perform_calls cs mon1 w1

-- Whether the monitor holds the descriptor `k`.
abbrev pub owns : Monitor → ℕ → Bool
owns mon k = elim mon.sock_fd [ none ↦ false | some fd ↦ fd == k ]

-- The open descriptors are those of `others` and the one that the monitor holds, which is none of `others`.
abbrev pub Split : (others now : ℕ → Bool) → Monitor → Type 0
Split others now mon =
    ((k : ℕ) → now k ≡ (owns mon k || others k)) × ((k : ℕ) → (owns mon k && others k) ≡ false)

module _ {W D : Type 0} (m : Machine W D) (opened : W → ℕ → Bool) (law : TracksOpen m opened)
    (others : ℕ → Bool) where
  abbrev Balanced : Monitor × W → Type 0
  Balanced (mon, w) = Split others (opened w) mon

  -- The monitor with its two variables apart.
  abbrev monitor : Option ℕ → Bool → Monitor
  monitor fd on = record { sock_fd = fd; enabled = on }

  -- A call after which the same descriptors are open.
  same-Balanced :
      (mon : Monitor) (w w1 : W)
      → ((k : ℕ) → opened w1 k ≡ opened w k)
      → Balanced (mon, w)
      → Balanced (mon, w1)
  same-Balanced mon w w1 same b = (λ k. same k ∙ b.0 k, b.1)

  -- The monitor closes its own.
  closed_own :
      (fd k : ℕ) (own other now : Bool)
      → own ≡ (fd == k)
      → (own && other) ≡ false
      → now ≡ (own || other)
      → (not (fd == k) && now) ≡ other
  closed_own fd k own other now e apart all = ground arith

  closed-Balanced :
      (fd : ℕ) (on on1 : Bool) (w : W)
      → Balanced (monitor (some fd) on, w)
      → Balanced (monitor none on1, m.close fd w)
  closed-Balanced fd on on1 w b = (
    λ k.
        law.close_only fd w k
        ∙ closed_own fd k (fd == k) (others k) (opened w k) refl (b.1 k) (b.0 k),
    λ k. refl,
  )

  -- A socket was obtained.
  socket-Balanced :
      (fd : ℕ) (on : Bool) (w : W)
      → (m.socket w).0 ≡ some fd
      → Balanced (monitor none on, w)
      → Balanced (monitor (some fd) on, (m.socket w).1)
  socket-Balanced fd on w got b = (
    λ k. law.socket_some w fd got k ∙ ap (λ x. (fd == k) || x) (b.0 k),
    λ k. elim (eq-cases fd k) [
      | inl hit ↦
          rw (← hit)
            (ap (λ x. (fd == fd) && x) (sym (b.0 fd) ∙ law.socket_unused w fd got) ∙ ground arith)
      | inr miss ↦ ground (arith, miss)
    ],
  )

  try_connect-Balanced :
      (on : Bool) (w : W)
      → Balanced (monitor none on, w)
      → Balanced ((try_connect m (monitor none on) w).1, (try_connect m (monitor none on) w).2)
  unfolding try_connect
  try_connect-Balanced on w b =
      let w1 = (m.socket w).1 in
      elim (Option-cases (m.socket w).0) [
        | inl none_left ↦
            rw (try_connect, none_left)
              (same-Balanced (monitor none on) w w1 (law.socket_none w none_left) b)
        | inr (fd, got) ↦
            let w2 = (m.connect fd socket_path w1).1 in
            let one : Balanced (monitor (some fd) on, w2) =
              same-Balanced (monitor (some fd) on) w1 w2 (law.connect_same fd socket_path w1)
                (socket-Balanced fd on w got b) in
            elim (Bool-cases (m.connect fd socket_path w1).0) [
              | inl reached ↦
                  rw (try_connect, got, reached)
                    (same-Balanced (monitor (some fd) on) w2 (m.set_nonblock fd w2)
                      (law.set_nonblock_same fd w2) one)
              | inr failed ↦ rw (try_connect, got, failed) (closed-Balanced fd on on w2 one)
            ]
      ]

  send-Balanced :
      (fd : ℕ) (json : List ℕ) (on : Bool) (w : W)
      → Balanced (monitor (some fd) on, w)
      → Balanced (send m fd json (monitor (some fd) on) w)
  unfolding send
  send-Balanced fd json on w b = answered (m.write fd json w).0
    where
      w1 : W
      w1 = (m.write fd json w).1

      kept : Balanced (monitor (some fd) on, w1)
      kept = same-Balanced (monitor (some fd) on) w w1 (law.write_same fd json w) b

      answered :
          (ret : WriteResult)
          → Balanced (elim ret [
            | wrote n ↦ (monitor (some fd) on, w1)
            | would_block ↦ (monitor (some fd) on, w1)
            | broken ↦ (monitor none on, m.close fd w1)
          ])
      answered (wrote n) = kept
      answered would_block = kept
      answered broken = closed-Balanced fd on on w1 kept

  send_if_connected-Balanced :
      (json : List ℕ) (fd : Option ℕ) (on : Bool) (w : W)
      → Balanced (monitor fd on, w)
      → Balanced (send_if_connected m json (monitor fd on) w)
  unfolding send_if_connected
  send_if_connected-Balanced json none on w b = b
  send_if_connected-Balanced json (some fd) on w b = send-Balanced fd json on w b

  emit_line-Balanced :
      (json : List ℕ) (fd : Option ℕ) (on : Bool) (w : W)
      → Balanced (monitor fd on, w)
      → Balanced (emit_line m json (monitor fd on) w)
  unfolding emit_line
  emit_line-Balanced json fd false w b = b
  emit_line-Balanced json (some fd) true w b = send-Balanced fd json true w b
  emit_line-Balanced json none true w b =
      let (reached, mon1, w1) = try_connect m (monitor none true) w in
      let kept = try_connect-Balanced true w b in
      if-rule Balanced reached (send_if_connected m json mon1 w1) (mon1, w1)
        (λ _. send_if_connected-Balanced json mon1.sock_fd mon1.enabled w1 kept) (λ _. kept)

  close-Balanced :
      (fd : Option ℕ) (on : Bool) (w : W)
      → Balanced (monitor fd on, w)
      → Balanced (close m (monitor fd on) w)
  unfolding close
  close-Balanced none on w b = b
  close-Balanced (some fd) on w b = closed-Balanced fd on on w b

  set_enabled-Balanced :
      (val : Bool) (fd : Option ℕ) (on : Bool) (w : W)
      → Balanced (monitor fd on, w)
      → Balanced (set_enabled m val (monitor fd on) w)
  unfolding set_enabled
  set_enabled-Balanced false fd on w b = b
  set_enabled-Balanced true none on w b = try_connect-Balanced true w b
  set_enabled-Balanced true (some fd) on w b = b

  -- The time of the event is read first.
  event-Balanced :
      (json : List ℕ) (mon : Monitor) (w : W)
      → Balanced (mon, w)
      → Balanced (emit_line m json mon (m.clock_gettime w).1)
  event-Balanced json mon w b =
      let w1 = (m.clock_gettime w).1 in
      emit_line-Balanced json mon.sock_fd mon.enabled w1
        (same-Balanced mon w w1 (law.clock_gettime_same w) b)

  perform_call-Balanced :
      (c : Call D) (mon : Monitor) (w : W) → Balanced (mon, w) → Balanced (perform_call m c mon w)
  unfolding emit_switch emit_created emit_terminated emit_registers emit_slice_changed get_timestamp
  perform_call-Balanced closing mon w b = close-Balanced mon.sock_fd mon.enabled w b
  perform_call-Balanced (enabling val) mon w b =
      set_enabled-Balanced val mon.sock_fd mon.enabled w b
  perform_call-Balanced (switched from_pid to_pid slice_ms) mon w b = event-Balanced _ mon w b
  perform_call-Balanced (created pid name) mon w b = event-Balanced _ mon w b
  perform_call-Balanced (terminated pid cpu_ms switches) mon w b = event-Balanced _ mon w b
  perform_call-Balanced (registers pid pc sp) mon w b = event-Balanced _ mon w b
  perform_call-Balanced (slice_changed old_ms new_ms) mon w b = event-Balanced _ mon w b

  closed_owns :
      (fd : Option ℕ) (on : Bool) (w : W) (k : ℕ) → owns (close m (monitor fd on) w).0 k ≡ false
  unfolding close
  closed_owns none on w k = refl
  closed_owns (some fd) on w k = refl

  -- The monitor leaks no descriptor and closes none but its own: if at first the descriptors open are those of
  -- `others` and the one that the monitor holds, if it holds one, they are so after any sequence of its calls,
  -- however `socket`, `connect` and `write` answer; and after a last `monitor_close` exactly those of `others` are
  -- open.
  pub perform_calls-Split :
      (calls : List (Call D)) (mon : Monitor) (w : W)
      → Split others (opened w) mon
      → let (mon', w') = perform_calls m calls mon w in
        Split others (opened w') mon' × ((k : ℕ) → opened (close m mon' w').1 k ≡ others k)
  perform_calls-Split [] mon w b =
      let last = close-Balanced mon.sock_fd mon.enabled w b in
      (b, λ k. last.0 k ∙ ap (λ x. x || others k) (closed_owns mon.sock_fd mon.enabled w k))
  perform_calls-Split (c ∷ cs) mon w b =
      let (mon1, w1) = perform_call m c mon w in
      perform_calls-Split cs mon1 w1 (perform_call-Balanced c mon w b)
