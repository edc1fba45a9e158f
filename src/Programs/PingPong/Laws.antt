-- ===== src/Programs/PingPong/Laws.antt =====
-- What the two sides of the exchange do together, in every order of their steps.
use minios_lab_edwin_jose.Base.{
  ℕ, ◌+◌, ◌-◌, ◌≤◌, ◌<◌, ◌≡◌, refl, sym, ap, ◌∙◌, ◌⊎◌, inl, inr, Bool, false, Option, none, some,
  List, [], arith, length,
}
use minios_lab_edwin_jose.Base.Int.{ℤ, pos}
use minios_lab_edwin_jose.Programs.Channel.{Channel, arrived}
use minios_lab_edwin_jose.Programs.PingPong.{
  Server, awaiting, replying, leaving, gone, Client, sending, waiting, closing, done, server_head,
  client_head, server_received, client_received, Match, Step, server_receives, server_sends,
  server_closes, client_sends, client_receives, client_closes, Reach, here, next,
}
use minios_lab_edwin_jose.Programs.PingPong.Invariant.{ask, reply, Together, Inv, Reach-Inv}

-- How many steps may follow.
abbrev pub server_left : Server → ℕ
server_left (awaiting i) = (20 - i) + (20 - i) + 1
server_left (replying i x) = (20 - i) + (20 - i)
server_left leaving = 1
server_left gone = 0

abbrev pub client_left : Client → ℕ
client_left (sending i x) = (20 - i) + (20 - i) + 1
client_left (waiting i x) = (20 - i) + (20 - i)
client_left (closing x) = 1
client_left (done x) = 0

-- What each side holds: the counters of the round it is in. The server holds none while it waits.
abbrev pub ServerCounts : Server → Type 0
ServerCounts (replying i x) = x ≡ reply i
ServerCounts _ = Unit

abbrev pub ClientCounts : Client → Type 0
ClientCounts (sending i x) = x ≡ ask i
ClientCounts (waiting i x) = (i < 20) × (x ≡ ask i)
ClientCounts (closing x) = x ≡ pos 41
ClientCounts (done x) = x ≡ pos 41

-- The two parts of it.
abbrev Round : Client → Type 0
Round (sending i x) = x ≡ ask i
Round (waiting i x) = i < 20
Round (closing x) = x ≡ pos 41
Round (done x) = x ≡ pos 41

abbrev Kept : Client → Type 0
Kept (waiting i x) = x ≡ ask i
Kept _ = Unit

both : (k : Client) → Round k → Kept k → ClientCounts k
both (sending i x) a b = a
both (waiting i x) a b = (a, b)
both (closing x) a b = a
both (done x) a b = a

received-Kept : (i : ℕ) (x : ℤ) (v : Option ℤ) → Kept (client_received i x v)
unfolding client_received client_head
received-Kept i x none = tt
received-Kept i x (some y) = ground arith

server_round :
    (s : Server) (k : Client) (u : List ℤ) (uc : Bool) (d : List ℤ) (dc : Bool)
    → Together s k u uc d dc
    → (i : ℕ) → (s ≡ awaiting i) ⊎ ((x : ℤ) × (s ≡ replying i x))
    → i < 20
server_round (awaiting j) k u uc d dc v i (inr (x, e)) = absurd (cc e)
server_round (replying j y) k u uc d dc v i (inl e) = absurd (cc e)
server_round leaving k u uc d dc v i e = ground arith
server_round gone k u uc d dc v i e = ground arith
server_round (awaiting j) (sending l y) u uc d dc v i (inl e) = ground (arith, v)
server_round (awaiting j) (waiting l y) u uc d dc v i (inl e) = ground (arith, v.0)
server_round (awaiting j) (closing y) u uc d dc v i e = absurd (cc v)
server_round (awaiting j) (done y) u uc d dc v i e = absurd (cc v)
server_round (replying j z) (sending l y) u uc d dc v i e = absurd (cc v)
server_round (replying j z) (waiting l y) u uc d dc v i (inr e) = ground (arith, v)
server_round (replying j z) (closing y) u uc d dc v i e = absurd (cc v)
server_round (replying j z) (done y) u uc d dc v i e = absurd (cc v)

counted :
    (s : Server) (k : Client) (u : List ℤ) (uc : Bool) (d : List ℤ) (dc : Bool)
    → Together s k u uc d dc
    → ServerCounts s × Round k × (length u + length d ≤ 1)
counted (awaiting i) (sending j x) u uc d dc (same, lt, at, (un, uo, dn, dop)) =
    (tt, at ∙ ap ask (sym same), omega (arith, ap length un, ap length dn))
counted (awaiting i) (waiting j x) u uc d dc (lt, uo, dop, inl (same, un, dn)) =
    (tt, omega (arith, same), omega (arith, ap length un, ap length dn))
counted (awaiting i) (waiting j x) u uc d dc (lt, uo, dop, inr (after, (un, dn))) =
    (tt, omega (arith, after), omega (arith, ap length un, ap length dn))
counted (awaiting i) (closing x) u uc d dc v = absurd (cc v)
counted (awaiting i) (done x) u uc d dc v = absurd (cc v)
counted (replying i y) (sending j x) u uc d dc v = absurd (cc v)
counted (replying i y) (waiting j x) u uc d dc (same, lt, at, (un, uo, dn, dop)) =
    (at, omega (arith, same), omega (arith, ap length un, ap length dn))
counted (replying i y) (closing x) u uc d dc v = absurd (cc v)
counted (replying i y) (done x) u uc d dc v = absurd (cc v)
counted leaving (sending j x) u uc d dc v = absurd (cc v)
counted leaving (waiting j x) u uc d dc (same, uo, dop, (un, dn)) =
    (tt, omega (arith, same), omega (arith, ap length un, ap length dn))
counted leaving (closing x) u uc d dc (at, dn, un) =
    (tt, at, omega (arith, ap length un, ap length dn))
counted leaving (done x) u uc d dc (at, dn, un) =
    (tt, at, omega (arith, ap length un, ap length dn))
counted gone (sending j x) u uc d dc v = absurd (cc v)
counted gone (waiting j x) u uc d dc (same, uo, dop, (un, dn)) =
    (tt, omega (arith, same), omega (arith, ap length un, ap length dn))
counted gone (closing x) u uc d dc (at, dn, un) =
    (tt, at, omega (arith, ap length un, ap length dn))
counted gone (done x) u uc d dc (at, dn, un) = (tt, at, omega (arith, ap length un, ap length dn))

left-server_received :
    (i : ℕ) (v : Option ℤ) → i < 20 → server_left (server_received i v) < (20 - i) + (20 - i) + 1
unfolding server_received
left-server_received i none lt = omega arith
left-server_received i (some x) lt = omega arith

left-server_head : (i : ℕ) → i < 20 → server_left (server_head (i + 1)) < (20 - i) + (20 - i)
unfolding server_head
left-server_head i lt = ground arith

left-client_received :
    (i : ℕ) (x : ℤ) (v : Option ℤ)
    → i < 20
    → client_left (client_received i x v) < (20 - i) + (20 - i)
unfolding client_received client_head
left-client_received i x none lt = omega arith
left-client_received i x (some y) lt = ground arith

module _ {C : Type 0} (h : Channel C) where
  -- Each step uses one up.
  Step-left :
      {s s' : Match C}
      → Step h s s'
      → Inv h s
      → server_left s'.server + client_left s'.client < server_left s.server + client_left s.client
  Step-left (server_receives i k u d r) v = omega (
    arith,
    left-server_received i (h.recv u).0 (server_round (awaiting i) k _ _ _ _ v i (inl refl)),
  )
  Step-left (server_sends i x k u d) v =
      omega (arith, left-server_head i (server_round (replying i x) k _ _ _ _ v i (inr (x, refl))))
  Step-left (server_closes k u d) v = omega arith
  Step-left (client_sends i x s u d) v = omega arith
  Step-left (client_receives i x s u d r) v =
      omega (arith, left-client_received i x (h.recv d).0 (counted s (waiting i x) _ _ _ _ v).1)
  Step-left (client_closes x s u d) v = omega arith

  progress :
      (s : Server) (k : Client) (u d : C)
      → Inv h (record { server = s; client = k; up = u; down = d })
      → (server_left s + client_left k ≡ 0)
        ⊎ ((t : Match C) × Step h (record { server = s; client = k; up = u; down = d }) t)
  progress s (sending i x) u d v = inr (_, client_sends i x s u d)
  progress s (closing x) u d v = inr (_, client_closes x s u d)
  progress leaving k u d v = inr (_, server_closes k u d)
  progress (replying i x) k u d v = inr (_, server_sends i x k u d)
  progress gone (done x) u d v = inl refl
  progress gone (waiting i x) u d (last, uo, dop, (un, dn)) =
      inr (_, client_receives i x gone u d (arrived (reply i) [] dn))
  progress (awaiting i) (done x) u d v = absurd (cc v)
  progress (awaiting i) (waiting j x) u d (lt, uo, dop, inl (same, un, dn)) =
      inr (_, server_receives i (waiting j x) u d (arrived (ask i) [] un))
  progress (awaiting i) (waiting j x) u d (lt, uo, dop, inr (after, (un, dn))) =
      inr (_, client_receives j x (awaiting i) u d (arrived (reply j) [] dn))

  module _ (u d : C) (un : h.queued u ≡ []) (uo : h.closed u ≡ false) (dn : h.queued d ≡ [])
      (dop : h.closed d ≡ false) where
    -- While the client waits, its variable keeps the value that it has sent.
    Reach-Kept : {n : ℕ} {s : Match C} → Reach h u d n s → Kept s.client
    Reach-Kept here = tt
    Reach-Kept (next r (server_receives i k u' d' e)) = Reach-Kept r
    Reach-Kept (next r (server_sends i x k u' d')) = Reach-Kept r
    Reach-Kept (next r (server_closes k u' d')) = Reach-Kept r
    Reach-Kept (next r (client_sends i x s u' d')) =
        (counted s (sending i x) _ _ _ _ (Reach-Inv h u d un uo dn dop r)).1
    Reach-Kept (next r (client_receives i x s u' d' e)) = received-Kept i x (h.recv d').0
    Reach-Kept (next r (client_closes x s u' d')) = tt

    -- In every order of the steps: in round `i`, counted from 0, the client's variable is 2i + 1, when it sends and
    -- while it waits, and the server's is 2i + 2 when it replies; after the loop the client's is 41; at most one
    -- message is on its way.
    pub exchange :
        {n : ℕ} {s : Match C}
        → Reach h u d n s
        → ServerCounts s.server
          × ClientCounts s.client
          × (length (h.queued s.up) + length (h.queued s.down) ≤ 1)
    exchange {n} {s} r =
        let (server, client, few) =
          counted s.server s.client _ _ _ _ (Reach-Inv h u d un uo dn dop r) in
        (server, both s.client client (Reach-Kept r), few)

    Reach-left :
        {n : ℕ} {s : Match C}
        → Reach h u d n s
        → n + server_left s.server + client_left s.client ≤ 82
    Reach-left here = omega arith
    Reach-left (next r st) =
        omega (arith, Reach-left r, Step-left st (Reach-Inv h u d un uo dn dop r))

    -- The two never wait for each other for ever: at most 82 steps are made, and while not both have closed a
    -- further one can be.
    pub never_stuck :
        {n : ℕ} {s : Match C}
        → Reach h u d n s
        → (n ≤ 82)
          × ((server_left s.server + client_left s.client ≡ 0) ⊎ ((s' : Match C) × Step h s s'))
    never_stuck {n} {s} r = (
      omega (arith, Reach-left r),
      progress s.server s.client s.up s.down (Reach-Inv h u d un uo dn dop r),
    )
