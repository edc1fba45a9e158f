-- ===== src/Programs/Sockets.antt =====
-- What the communicating programs of programs/ ask of the kernel, and how they open their sockets. The
-- two servers, and the two clients, do it in the same way, with another default path.
pub mod Laws
use minios_lab_edwin_jose.Base.{
  ℕ, zero, suc, Bool, true, false, Option, none, some, if◌then◌else◌, take,
}
use minios_lab_edwin_jose.Machine.{CString}

-- Where a call returns 0 or -1, the Boolean is true for 0; `none` is -1.
pub record Sockets (W : Type 0) : Type 0 where
  pub unlink : CString → W → W
  -- socket(AF_UNIX, SOCK_STREAM, 0)
  pub socket : W → Option ℕ × W
  pub bind : ℕ → CString → W → Bool × W
  pub listen : ℕ → ℕ → W → Bool × W
  pub accept : ℕ → W → Option ℕ × W
  pub connect : ℕ → CString → W → Bool × W
  pub usleep : ℕ → W → W
  pub close : ℕ → W → W

-- The path that fits `sun_path`, 108 bytes with the terminating zero.
pub sun_path : CString → CString
sun_path path = take 107 path

-- argc > 1 ? argv[1] : the default
pub chosen : CString → Option CString → CString
chosen default_path none = default_path
chosen default_path (some path) = path

-- How the opening went: exit status 1, or the descriptors.
pub data Server : Type 0 where
  failed : Server
  accepted : (server_fd client_fd : ℕ) → Server

module _ {W : Type 0} (k : Sockets W) where
  -- From `listen` on.
  pub listen_accept : ℕ → W → Server × W
  listen_accept server_fd w =
      let (listening, w1) = k.listen server_fd 1 w in
      let (client, w2) = k.accept server_fd w1 in
      if listening
      then elim client [ none ↦ (failed, w2) | some client_fd ↦ (accepted server_fd client_fd, w2) ]
      else (failed, w1)

  pub serve : CString → W → Server × W
  serve path w =
      let (fd, w1) = k.socket (k.unlink path w) in
      elim fd [
        | none ↦ (failed, w1)
        | some server_fd ↦
            let (bound, w2) = k.bind server_fd (sun_path path) w1 in
            if bound then listen_accept server_fd w2 else (failed, w2)
      ]

  -- The end of a server.
  pub leave_server : CString → ℕ → ℕ → W → W
  leave_server path server_fd client_fd w = k.unlink path (k.close server_fd (k.close client_fd w))

  -- The loop over the attempts: whether one connected.
  pub attempts : (rounds : ℕ) → ℕ → CString → W → Bool × W
  attempts zero fd path w = (false, w)
  attempts (suc n) fd path w =
      let (connected, w1) = k.connect fd (sun_path path) w in
      let later = attempts n fd path (k.usleep 100_000 w1) in
      if connected then (true, w1) else later

  -- `none` for the exit status 1.
  pub dial : CString → W → Option ℕ × W
  dial path w =
      let (fd, w1) = k.socket w in
      elim fd [
        | none ↦ (none, w1)
        | some sock ↦
            let (connected, w2) = attempts 50 sock path w1 in
            if connected then (some sock, w2) else (none, w2)
      ]
