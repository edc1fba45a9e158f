-- ===== src/Programs/PingPong.antt =====
-- programs/ping_pong_server.c and programs/ping_pong_client.c: a counter goes to and fro twenty times, and
-- each side adds one to it. A step is what one of them does up to its next call of send(2) or recv(2).
pub mod Invariant
pub mod Laws
use minios_lab_edwin_jose.Base.{
  ℕ, zero, suc, ◌+◌, ◌≡◌, Bool, true, false, Option, none, some, ltb, if◌then◌else◌,
}
use minios_lab_edwin_jose.Base.Int.{ℤ, pos, ◌+ℤ◌}
use minios_lab_edwin_jose.Base.Text.{codes}
use minios_lab_edwin_jose.Machine.{CString}
use minios_lab_edwin_jose.Programs.Sockets.{Sockets, serve, dial, chosen}
use minios_lab_edwin_jose.Programs.Sockets
use minios_lab_edwin_jose.Programs.Channel.{Channel, Readable}

abbrev pub default_path : CString
default_path = codes "/tmp/minios_pingpong.sock"

-- Before the loops.
pub open_server : {W : Type 0} → Sockets W → Option CString → W → Sockets.Server × W
open_server k arg w = serve k (chosen default_path arg) w

pub open_client : {W : Type 0} → Sockets W → Option CString → W → Option ℕ × W
open_client k arg w = dial k (chosen default_path arg) w

-- In round `i`, before `recv` and before `send`; then before and after the closing.
pub data Server : Type 0 where
  awaiting : (i : ℕ) → Server
  replying : (i : ℕ) (counter : ℤ) → Server
  leaving : Server
  gone : Server

pub data Client : Type 0 where
  sending : (i : ℕ) (counter : ℤ) → Client
  waiting : (i : ℕ) (counter : ℤ) → Client
  closing : (counter : ℤ) → Client
  done : (counter : ℤ) → Client

-- The tests of the two loops.
pub server_head : ℕ → Server
server_head i = if ltb i 20 then awaiting i else leaving

pub client_head : ℕ → ℤ → Client
client_head i counter = if ltb i 20 then sending i counter else closing counter

-- What the answer of `recv` leads to.
pub server_received : ℕ → Option ℤ → Server
server_received i none = leaving
server_received i (some counter) = replying i (counter +ℤ pos 1)

pub client_received : ℕ → ℤ → Option ℤ → Client
client_received i counter none = closing counter
client_received i counter (some reply) = client_head (i + 1) (reply +ℤ pos 1)

-- `up` goes from the client to the server, `down` back.
pub record Match (C : Type 0) : Type 0 where
  pub server : Server
  pub client : Client
  pub up : C
  pub down : C

pub data Step {C : Type 0} (h : Channel C) : Match C → Match C → Type 0 where
  server_receives :
      (i : ℕ) (k : Client) (u d : C)
      → Readable h u
      → Step h
          (record { server = awaiting i; client = k; up = u; down = d })
          (record {
            server = server_received i (h.recv u).0;
            client = k;
            up = (h.recv u).1;
            down = d;
          })
  server_sends :
      (i : ℕ) (x : ℤ) (k : Client) (u d : C)
      → Step h
          (record { server = replying i x; client = k; up = u; down = d })
          (record { server = server_head (i + 1); client = k; up = u; down = h.send x d })
  server_closes :
      (k : Client) (u d : C)
      → Step h
          (record { server = leaving; client = k; up = u; down = d })
          (record { server = gone; client = k; up = u; down = h.shut d })
  client_sends :
      (i : ℕ) (x : ℤ) (s : Server) (u d : C)
      → Step h
          (record { server = s; client = sending i x; up = u; down = d })
          (record { server = s; client = waiting i x; up = h.send x u; down = d })
  client_receives :
      (i : ℕ) (x : ℤ) (s : Server) (u d : C)
      → Readable h d
      → Step h
          (record { server = s; client = waiting i x; up = u; down = d })
          (record {
            server = s;
            client = client_received i x (h.recv d).0;
            up = u;
            down = (h.recv d).1;
          })
  client_closes :
      (x : ℤ) (s : Server) (u d : C)
      → Step h
          (record { server = s; client = closing x; up = u; down = d })
          (record { server = s; client = done x; up = h.shut u; down = d })

abbrev pub started : {C : Type 0} → C → C → Match C
started u d = record { server = awaiting 0; client = sending 0 (pos 1); up = u; down = d }

-- The states after `n` steps from the start.
pub data Reach {C : Type 0} (h : Channel C) (u d : C) : ℕ → Match C → Type 0 where
  here : Reach h u d 0 (started u d)
  next : {n : ℕ} {s s' : Match C} → Reach h u d n s → Step h s s' → Reach h u d (suc n) s'
