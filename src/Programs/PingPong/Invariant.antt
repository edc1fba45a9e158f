-- ===== src/Programs/PingPong/Invariant.antt =====
-- Where the two sides can stand together, and that every step keeps to it.
use minios_lab_edwin_jose.Base.{
  ℕ, ◌+◌, ◌<◌, ◌≡◌, refl, sym, ap, ◌∙◌, ◌⊎◌, inl, inr, Bool, true, false, some, List, [], ◌∷◌, ◌++◌,
  ltb, arith, Bool-cases,
}
use minios_lab_edwin_jose.Base.Int.{ℤ, pos, ◌+ℤ◌}
use minios_lab_edwin_jose.Programs.Channel.{Channel, Readable, arrived, ended}
use minios_lab_edwin_jose.Programs.PingPong.{
  Server, awaiting, replying, leaving, gone, Client, sending, waiting, closing, done, server_head,
  client_head, server_received, client_received, Match, Step, server_receives, server_sends,
  server_closes, client_sends, client_receives, client_closes, Reach, here, next,
}

-- The value that the client sends in round `i`, and the reply.
abbrev pub ask : ℕ → ℤ
ask i = pos (i + i + 1)

abbrev pub reply : ℕ → ℤ
reply i = pos (i + i + 2)

-- What is on its way, with both directions open.
abbrev Idle : List ℤ → Bool → List ℤ → Bool → Type 0
Idle u uc d dc = (u ≡ []) × (uc ≡ false) × (d ≡ []) × (dc ≡ false)

-- The reply of round `j` is on its way.
abbrev Replied : ℕ → List ℤ → List ℤ → Type 0
Replied j u d = (u ≡ []) × (d ≡ reply j ∷ [])

abbrev pub Together : Server → Client → List ℤ → Bool → List ℤ → Bool → Type 0
Together (awaiting i) (sending j x) u uc d dc = (j ≡ i) × (i < 20) × (x ≡ ask i) × Idle u uc d dc
Together (awaiting i) (waiting j x) u uc d dc =
    (i < 20)
    × (uc ≡ false)
    × (dc ≡ false)
    × (((j ≡ i) × (u ≡ ask i ∷ []) × (d ≡ [])) ⊎ ((i ≡ j + 1) × Replied j u d))
Together (replying i y) (waiting j x) u uc d dc =
    (j ≡ i) × (i < 20) × (y ≡ reply i) × Idle u uc d dc
Together leaving (waiting j x) u uc d dc = (j ≡ 19) × (uc ≡ false) × (dc ≡ false) × Replied j u d
Together gone (waiting j x) u uc d dc = (j ≡ 19) × (uc ≡ false) × (dc ≡ true) × Replied j u d
Together leaving (closing x) u uc d dc = (x ≡ pos 41) × (d ≡ []) × (u ≡ [])
Together leaving (done x) u uc d dc = (x ≡ pos 41) × (d ≡ []) × (u ≡ [])
Together gone (closing x) u uc d dc = (x ≡ pos 41) × (d ≡ []) × (u ≡ [])
Together gone (done x) u uc d dc = (x ≡ pos 41) × (d ≡ []) × (u ≡ [])
Together _ _ u uc d dc = true ≡ false

plus_one : (n : ℕ) → pos n +ℤ pos 1 ≡ pos (n + 1)
plus_one n = ground arith

module _ {C : Type 0} (h : Channel C) where
  abbrev pub Inv : Match C → Type 0
  Inv s =
      Together s.server s.client (h.queued s.up) (h.closed s.up) (h.queued s.down) (h.closed s.down)

  server_receives-Inv :
      (i : ℕ) (k : Client) (u d : C)
      → Readable h u
      → Inv (record { server = awaiting i; client = k; up = u; down = d })
      → Inv (record {
        server = server_received i (h.recv u).0;
        client = k;
        up = (h.recv u).1;
        down = d;
      })
  unfolding server_received
  server_receives-Inv i (sending j x) u d (arrived y q e) (same, lt, at, (un, uo, dn, dop)) =
      absurd (cc (e, un))
  server_receives-Inv i (sending j x) u d (ended e cl) (same, lt, at, (un, uo, dn, dop)) =
      absurd (cc (cl, uo))
  server_receives-Inv i (waiting j x) u d r (lt, uo, dop, inl (same, un, dn)) =
      let (value, tail, still) = h.recv-queued (ask i) [] u un in
      rw (value, tail, still) (same, lt, ground arith, (refl, uo, dn, dop))
  server_receives-Inv i (waiting j x) u d (arrived y q e) (lt, uo, dop, inr (after, (un, dn))) =
      absurd (cc (e, un))
  server_receives-Inv i (waiting j x) u d (ended e cl) (lt, uo, dop, inr (after, (un, dn))) =
      absurd (cc (cl, uo))
  server_receives-Inv i (closing x) u d r v = absurd (cc v)
  server_receives-Inv i (done x) u d r v = absurd (cc v)

  server_sends-Inv :
      (i : ℕ) (x : ℤ) (k : Client) (u d : C)
      → Inv (record { server = replying i x; client = k; up = u; down = d })
      → Inv (record { server = server_head (i + 1); client = k; up = u; down = h.send x d })
  unfolding server_head
  server_sends-Inv i x (sending j y) u d v = absurd (cc v)
  server_sends-Inv i x (closing y) u d v = absurd (cc v)
  server_sends-Inv i x (done y) u d v = absurd (cc v)
  server_sends-Inv i x (waiting j y) u d (same, lt, at, (un, uo, dn, dop)) =
      let sent : h.queued (h.send x d) ≡ reply j ∷ [] =
        h.queued-send x d dop
        ∙ (ap (λ l. l ++ x ∷ []) dn ∙ ap (λ z. z ∷ []) (at ∙ ap reply (sym same))) in
      elim (Bool-cases (ltb (i + 1) 20)) [
        | inl more ↦
            rw more
              (ground arith, uo, h.closed-send x d ∙ dop, inr (omega (arith, same), (un, sent)))
        | inr last ↦ rw last (ground arith, uo, h.closed-send x d ∙ dop, (un, sent))
      ]

  server_closes-Inv :
      (k : Client) (u d : C)
      → Inv (record { server = leaving; client = k; up = u; down = d })
      → Inv (record { server = gone; client = k; up = u; down = h.shut d })
  server_closes-Inv (sending j x) u d v = absurd (cc v)
  server_closes-Inv (waiting j x) u d (last, uo, dop, (un, dn)) =
      (last, uo, h.closed-shut d, (un, h.queued-shut d ∙ dn))
  server_closes-Inv (closing x) u d (at, dn, un) = (at, h.queued-shut d ∙ dn, un)
  server_closes-Inv (done x) u d (at, dn, un) = (at, h.queued-shut d ∙ dn, un)

  client_sends-Inv :
      (i : ℕ) (x : ℤ) (s : Server) (u d : C)
      → Inv (record { server = s; client = sending i x; up = u; down = d })
      → Inv (record { server = s; client = waiting i x; up = h.send x u; down = d })
  client_sends-Inv i x (awaiting j) u d (same, lt, at, (un, uo, dn, dop)) = (
    lt,
    h.closed-send x u ∙ uo,
    dop,
    inl (same, h.queued-send x u uo ∙ (ap (λ l. l ++ x ∷ []) un ∙ ap (λ z. z ∷ []) at), dn),
  )
  client_sends-Inv i x (replying j y) u d v = absurd (cc v)
  client_sends-Inv i x leaving u d v = absurd (cc v)
  client_sends-Inv i x gone u d v = absurd (cc v)

  client_closes-Inv :
      (x : ℤ) (s : Server) (u d : C)
      → Inv (record { server = s; client = closing x; up = u; down = d })
      → Inv (record { server = s; client = done x; up = h.shut u; down = d })
  client_closes-Inv x (awaiting j) u d v = absurd (cc v)
  client_closes-Inv x (replying j y) u d v = absurd (cc v)
  client_closes-Inv x leaving u d (at, dn, un) = (at, dn, h.queued-shut u ∙ un)
  client_closes-Inv x gone u d (at, dn, un) = (at, dn, h.queued-shut u ∙ un)

  -- The last reply ends the client's loop, an earlier one starts its next round.
  client_answered-last : (x : ℤ) → client_received 19 x (some (reply 19)) ≡ closing (pos 41)
  unfolding client_received client_head
  client_answered-last x = refl

  client_answered :
      (i : ℕ) (x : ℤ)
      → i + 1 < 20
      → client_received i x (some (reply i)) ≡ sending (i + 1) (ask (i + 1))
  unfolding client_received client_head
  client_answered i x lt = ground arith

  client_receives-Inv :
      (i : ℕ) (x : ℤ) (s : Server) (u d : C)
      → Readable h d
      → Inv (record { server = s; client = waiting i x; up = u; down = d })
      → Inv (record {
        server = s;
        client = client_received i x (h.recv d).0;
        up = u;
        down = (h.recv d).1;
      })
  client_receives-Inv i x (awaiting j) u d (arrived y q e) (lt, uo, dop, inl (same, un, dn)) =
      absurd (cc (e, dn))
  client_receives-Inv i x (awaiting j) u d (ended e cl) (lt, uo, dop, inl (same, un, dn)) =
      absurd (cc (cl, dop))
  client_receives-Inv i x (awaiting j) u d r (lt, uo, dop, inr (after, (un, dn))) =
      let (value, tail, still) = h.recv-queued (reply i) [] d dn in
      rw (value, tail, still, client_answered i x (omega (arith, after, lt)))
        (sym after, lt, ap ask (sym after), (un, uo, refl, dop))
  client_receives-Inv i x (replying j y) u d (arrived z q e) (same, lt, at, (un, uo, dn, dop)) =
      absurd (cc (e, dn))
  client_receives-Inv i x (replying j y) u d (ended e cl) (same, lt, at, (un, uo, dn, dop)) =
      absurd (cc (cl, dop))
  client_receives-Inv i x leaving u d r (last, uo, dop, (un, dn)) =
      let (value, tail, still) = h.recv-queued (reply i) [] d dn in
      rw (value, tail, last, client_answered-last x) (refl, refl, un)
  client_receives-Inv i x gone u d r (last, uo, dop, (un, dn)) =
      let (value, tail, still) = h.recv-queued (reply i) [] d dn in
      rw (value, tail, last, client_answered-last x) (refl, refl, un)

  Step-Inv : {s s' : Match C} → Step h s s' → Inv s → Inv s'
  Step-Inv (server_receives i k u d r) v = server_receives-Inv i k u d r v
  Step-Inv (server_sends i x k u d) v = server_sends-Inv i x k u d v
  Step-Inv (server_closes k u d) v = server_closes-Inv k u d v
  Step-Inv (client_sends i x s u d) v = client_sends-Inv i x s u d v
  Step-Inv (client_receives i x s u d r) v = client_receives-Inv i x s u d r v
  Step-Inv (client_closes x s u d) v = client_closes-Inv x s u d v

  pub Reach-Inv :
      (u d : C) {n : ℕ} {s : Match C}
      → h.queued u ≡ []
      → h.closed u ≡ false
      → h.queued d ≡ []
      → h.closed d ≡ false
      → Reach h u d n s
      → Inv s
  Reach-Inv u d un uo dn dop here = (refl, omega arith, refl, (un, uo, dn, dop))
  Reach-Inv u d un uo dn dop (next r st) = Step-Inv st (Reach-Inv u d un uo dn dop r)
