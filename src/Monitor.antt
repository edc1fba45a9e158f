-- ===== src/Monitor.antt =====
-- src/monitor.c: events as lines of JSON on a Unix socket that is connected when it is first needed.
-- A function that emits returns the monitor's static variables beside the outside world.
pub mod Laws
pub mod Descriptors
pub mod Keeps
use minios_lab_edwin_jose.Base.{
  ℕ, Bool, true, false, Option, none, some, List, [], ◌∷◌, take, if◌then◌else◌,
}
use minios_lab_edwin_jose.Base.Int.{ℤ, pos}
use minios_lab_edwin_jose.Base.Text.{codes}
use minios_lab_edwin_jose.Machine.{
  Machine, CString, Piece, text, dec, str, hex, fixed, WriteResult, wrote, would_block, broken,
}

-- `sock_fd`, `none` for -1, and `enabled`.
pub record Monitor : Type 0 where
  pub sock_fd : Option ℕ
  pub enabled : Bool

abbrev pub socket_path : CString
socket_path = codes "/tmp/minios.sock"

-- The size of the buffers that the events are printed into.
abbrev pub buffer_size : ℕ
buffer_size = 256

module _ {W D : Type 0} (m : Machine W D) where
  get_timestamp : W → D × W
  get_timestamp w =
      let (ts, w1) = m.clock_gettime w in
      (m.add (m.of_int ts.tv_sec) (m.div (m.of_int ts.tv_nsec) (m.of_int (pos 1_000_000_000))), w1)

  pub try_connect : Monitor → W → Bool × Monitor × W
  try_connect mon w =
      let (fd, w1) = m.socket w in
      elim fd [
        | none ↦ (false, mon, w1)
        | some n ↦
            let (reached, w2) = m.connect n socket_path w1 in
            if reached
            then (true, record mon { sock_fd = some n }, m.set_nonblock n w2)
            else (false, mon, m.close n w2)
      ]

  -- The write to a connected socket, and what a failure does to the connection.
  send : ℕ → List ℕ → Monitor → W → Monitor × W
  send fd json mon w =
      let (ret, w1) = m.write fd json w in
      elim ret [
        | wrote n ↦ (mon, w1)
        | would_block ↦ (mon, w1)
        | broken ↦ (record mon { sock_fd = none }, m.close fd w1)
      ]

  send_if_connected : List ℕ → Monitor → W → Monitor × W
  unfolding send
  send_if_connected json mon w = elim mon.sock_fd [ none ↦ (mon, w) | some fd ↦ send fd json mon w ]

  pub emit_line : List ℕ → Monitor → W → Monitor × W
  unfolding try_connect send_if_connected
  emit_line json mon w =
      if mon.enabled
      then elim mon.sock_fd [
        | none ↦
            let (reached, mon1, w1) = try_connect mon w in
            if reached then send_if_connected json mon1 w1 else (mon1, w1)
        | some fd ↦ send fd json mon w
      ]
      else (mon, w)

  -- `snprintf` into a buffer of 256 bytes, the last of them the terminating zero.
  print_event : List (Piece D) → List ℕ
  print_event pieces = take 255 (m.format pieces)

  unfoldable pub close : Monitor → W → Monitor × W
  close mon w = elim mon.sock_fd [
    | none ↦ (mon, w)
    | some fd ↦ (record mon { sock_fd = none }, m.close fd w)
  ]

  pub set_enabled : Bool → Monitor → W → Monitor × W
  unfolding try_connect
  set_enabled val mon w =
      let mon1 = record mon { enabled = val } in
      if val
      then elim mon1.sock_fd [
        | none ↦ let (reached, mon2, w2) = try_connect mon1 w in (mon2, w2)
        | some fd ↦ (mon1, w)
      ]
      else (mon1, w)

  pub emit_switch : ℕ → ℕ → ℤ → Monitor → W → Monitor × W
  unfolding get_timestamp emit_line print_event
  emit_switch from_pid to_pid slice_ms mon w =
      let (ts, w1) = get_timestamp w in
      emit_line
        (print_event (
          text (codes "{\"type\":\"CONTEXT_SWITCH\",\"ts\":")
          ∷ fixed 3 ts
          ∷ text (codes ",\"from\":")
          ∷ dec (pos from_pid)
          ∷ text (codes ",\"to\":")
          ∷ dec (pos to_pid)
          ∷ text (codes ",\"slice_ms\":")
          ∷ dec slice_ms
          ∷ text (codes "}\n")
          ∷ []))
        mon w1

  pub emit_created : ℕ → CString → Monitor → W → Monitor × W
  unfolding get_timestamp emit_line print_event
  emit_created pid name mon w =
      let (ts, w1) = get_timestamp w in
      emit_line
        (print_event (
          text (codes "{\"type\":\"PROCESS_CREATED\",\"ts\":")
          ∷ fixed 3 ts
          ∷ text (codes ",\"pid\":")
          ∷ dec (pos pid)
          ∷ text (codes ",\"name\":\"")
          ∷ str name
          ∷ text (codes "\"}\n")
          ∷ []))
        mon w1

  pub emit_terminated : ℕ → D → ℕ → Monitor → W → Monitor × W
  unfolding get_timestamp emit_line print_event
  emit_terminated pid cpu_ms switches mon w =
      let (ts, w1) = get_timestamp w in
      emit_line
        (print_event (
          text (codes "{\"type\":\"PROCESS_TERMINATED\",\"ts\":")
          ∷ fixed 3 ts
          ∷ text (codes ",\"pid\":")
          ∷ dec (pos pid)
          ∷ text (codes ",\"cpu_ms\":")
          ∷ fixed 1 cpu_ms
          ∷ text (codes ",\"switches\":")
          ∷ dec (pos switches)
          ∷ text (codes "}\n")
          ∷ []))
        mon w1

  pub emit_registers : ℕ → ℕ → ℕ → Monitor → W → Monitor × W
  unfolding get_timestamp emit_line print_event
  emit_registers pid pc sp mon w =
      let (ts, w1) = get_timestamp w in
      emit_line
        (print_event (
          text (codes "{\"type\":\"REGISTERS\",\"ts\":")
          ∷ fixed 3 ts
          ∷ text (codes ",\"pid\":")
          ∷ dec (pos pid)
          ∷ text (codes ",\"pc\":\"")
          ∷ hex pc
          ∷ text (codes "\",\"sp\":\"")
          ∷ hex sp
          ∷ text (codes "\"}\n")
          ∷ []))
        mon w1

  pub emit_slice_changed : ℤ → ℤ → Monitor → W → Monitor × W
  unfolding get_timestamp emit_line print_event
  emit_slice_changed old_ms new_ms mon w =
      let (ts, w1) = get_timestamp w in
      emit_line
        (print_event (
          text (codes "{\"type\":\"SLICE_CHANGED\",\"ts\":")
          ∷ fixed 3 ts
          ∷ text (codes ",\"old_ms\":")
          ∷ dec old_ms
          ∷ text (codes ",\"new_ms\":")
          ∷ dec new_ms
          ∷ text (codes "}\n")
          ∷ []))
        mon w1
