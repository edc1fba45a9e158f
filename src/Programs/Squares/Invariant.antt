-- ===== src/Programs/Squares/Invariant.antt =====
-- What holds between the steps of the producer and the consumer.
use minios_lab_edwin_jose.Base.{
  ℕ, zero, suc, ◌+◌, ◌*◌, ◌≤◌, ◌≡◌, refl, ap, ◌∙◌, inl, inr, Bool, true, false, List, [], ◌∷◌, ◌++◌,
  leb, arith, Bool-cases,
}
use minios_lab_edwin_jose.Base.Int.{ℤ, pos, negsuc}
use minios_lab_edwin_jose.Programs.Channel.{Channel, Readable, arrived, ended}
use minios_lab_edwin_jose.Programs.Squares.{
  Producer, producing, closing, done, killed, Consumer, consuming, finished, consumed, consume,
  produce, Pair, Step, produces, closes, consumes, kills,
}
use minios_lab_edwin_jose.Programs.Squares.Sums.{squares, squares-snoc, sum_squares}

-- What the producer has sent and the consumer, who has had `k` values, has not yet received.
abbrev pub Pending : Producer → ℕ → List ℤ → Bool → Type 0
Pending (producing i) k q cl =
    (n : ℕ) × (k + n + 1 ≡ i) × (i ≤ 31) × (q ≡ squares (suc k) n) × (cl ≡ false)
Pending closing k q cl =
    (n : ℕ) × (k + n ≡ 30) × (q ≡ squares (suc k) n ++ negsuc 0 ∷ []) × (cl ≡ false)
Pending done k q cl =
    (n : ℕ) × (k + n ≡ 30) × (q ≡ squares (suc k) n ++ negsuc 0 ∷ []) × (cl ≡ true)
Pending killed k q cl = (n : ℕ) × (k + n ≤ 30) × (q ≡ squares (suc k) n) × (cl ≡ true)

-- How many values a consumer that has finished had.
abbrev pub Complete : Producer → ℕ → Type 0
Complete (producing i) k = true ≡ false
Complete closing k = k ≡ 30
Complete done k = k ≡ 30
Complete killed k = k ≤ 30

abbrev pub Together : Producer → Consumer → List ℤ → Bool → Type 0
Together p (consuming total k) q cl = (total ≡ pos (sum_squares k)) × Pending p k q cl
Together p (finished total k) q cl = (total ≡ pos (sum_squares k)) × Complete p k

pub Pending-le : (p : Producer) (k : ℕ) (q : List ℤ) (cl : Bool) → Pending p k q cl → k ≤ 30
Pending-le (producing i) k q cl (n, at, le, q1, c1) = omega (arith, at, le)
Pending-le closing k q cl (n, all, q1, c1) = omega (arith, all)
Pending-le done k q cl (n, all, q1, c1) = omega (arith, all)
Pending-le killed k q cl (n, some_of, q1, c1) = omega (arith, some_of)

module _ {C : Type 0} (h : Channel C) where
  abbrev pub Inv : Pair C → Type 0
  Inv s = Together s.producer s.consumer (h.queued s.channel) (h.closed s.channel)

  -- The consumer receives the next square, or the -1, or the end of the stream.
  consume-square :
      (total : ℤ) (k : ℕ) (q : List ℤ) (c : C)
      → total ≡ pos (sum_squares k)
      → h.queued c ≡ pos (suc k * suc k) ∷ q
      → consume h total k c ≡ (consuming (pos (sum_squares (suc k))) (suc k), (h.recv c).1)
  unfolding consume consumed
  consume-square total k q c t e =
      rw (h.recv-queued (pos (suc k * suc k)) q c e).0 (ground (arith, t))

  consume-last :
      (total : ℤ) (k : ℕ) (q : List ℤ) (c : C)
      → h.queued c ≡ negsuc 0 ∷ q
      → consume h total k c ≡ (finished total k, (h.recv c).1)
  unfolding consume consumed
  consume-last total k q c e = rw (h.recv-queued (negsuc 0) q c e).0 refl

  consume-end :
      (total : ℤ) (k : ℕ) (c : C)
      → h.queued c ≡ []
      → h.closed c ≡ true
      → consume h total k c ≡ (finished total k, (h.recv c).1)
  unfolding consume consumed
  consume-end total k c e cl = rw (h.recv-end c e cl).0 refl

  produce-Inv :
      (i : ℕ) (s : Consumer) (c : C)
      → Inv (record { producer = producing i; consumer = s; channel = c })
      → Inv (record { producer = (produce h i c).0; consumer = s; channel = (produce h i c).1 })
  unfolding produce
  produce-Inv i (finished total k) c (e, f) = absurd (cc f)
  produce-Inv i (consuming total k) c (e, (n, at, le, q, cl)) = elim (Bool-cases (leb i 30)) [
    | inl more ↦ rw more (
      e,
      (
        suc n,
        omega (arith, at),
        ground arith,
        h.queued-send (pos (i * i)) c cl
            ∙ (ap (λ l. l ++ pos (i * i) ∷ []) q
                ∙ (ap (λ x. squares (suc k) n ++ pos (x * x) ∷ []) (position n at)
                    ∙ squares-snoc (suc k) n)),
        h.closed-send (pos (i * i)) c ∙ cl,
      ),
    )
    | inr last ↦ rw last (
      e,
      (
        n,
        ground arith,
        h.queued-send (negsuc 0) c cl ∙ ap (λ l. l ++ negsuc 0 ∷ []) q,
        h.closed-send (negsuc 0) c ∙ cl,
      ),
    )
  ]
    where
      position : (x : ℕ) → k + x + 1 ≡ i → i ≡ suc k + x
      position x a = omega arith

  close-Inv :
      (s : Consumer) (c : C)
      → Inv (record { producer = closing; consumer = s; channel = c })
      → Inv (record { producer = done; consumer = s; channel = h.shut c })
  close-Inv (finished total k) c v = v
  close-Inv (consuming total k) c (e, (n, all, q, cl)) =
      (e, (n, all, h.queued-shut c ∙ q, h.closed-shut c))

  kill-Inv :
      (i : ℕ) (s : Consumer) (c : C)
      → Inv (record { producer = producing i; consumer = s; channel = c })
      → Inv (record { producer = killed; consumer = s; channel = h.shut c })
  kill-Inv i (finished total k) c (e, f) = absurd (cc f)
  kill-Inv i (consuming total k) c (e, (n, at, le, q, cl)) =
      (e, (n, omega (arith, at, le), h.queued-shut c ∙ q, h.closed-shut c))

  -- After the next square.
  took_square :
      (p : Producer) (total : ℤ) (k : ℕ) (q : List ℤ) (c : C)
      → total ≡ pos (sum_squares k)
      → h.queued c ≡ pos (suc k * suc k) ∷ q
      → Pending p (suc k) q (h.closed c)
      → Inv (record {
        producer = p;
        consumer = (consume h total k c).0;
        channel = (consume h total k c).1;
      })
  took_square p total k q c e head more =
      let (value, tail, same) = h.recv-queued (pos (suc k * suc k)) q c head in
      rw (consume-square total k q c e head, tail, same) (refl, more)

  -- After -1, or after the end of the stream.
  ended_with :
      (p : Producer) (total : ℤ) (k : ℕ) (c : C)
      → total ≡ pos (sum_squares k)
      → consume h total k c ≡ (finished total k, (h.recv c).1)
      → Complete p k
      → Inv (record {
        producer = p;
        consumer = (consume h total k c).0;
        channel = (consume h total k c).1;
      })
  ended_with p total k c e last all = rw last (e, all)

  never_ready : (c : C) → h.queued c ≡ [] → h.closed c ≡ false → Readable h c → true ≡ false
  never_ready c e cl (arrived x q e1) = cc (e, e1)
  never_ready c e cl (ended e1 cl1) = cc (cl, cl1)

  consume-Inv :
      (p : Producer) (total : ℤ) (k : ℕ) (c : C)
      → Readable h c
      → Inv (record { producer = p; consumer = consuming total k; channel = c })
      → Inv (record {
        producer = p;
        consumer = (consume h total k c).0;
        channel = (consume h total k c).1;
      })
  consume-Inv (producing i) total k c r (e, (zero, at, le, q, cl)) =
      absurd (cc (never_ready c q cl r))
  consume-Inv (producing i) total k c r (e, (suc n, at, le, q, cl)) =
      took_square (producing i) total k (squares (suc (suc k)) n) c e q
        (n, omega (arith, at), le, refl, cl)
  consume-Inv closing total k c r (e, (zero, all, q, cl)) =
      ended_with closing total k c e (consume-last total k [] c q) (omega (arith, all))
  consume-Inv closing total k c r (e, (suc n, all, q, cl)) =
      took_square closing total k (squares (suc (suc k)) n ++ negsuc 0 ∷ []) c e q
        (n, omega (arith, all), refl, cl)
  consume-Inv done total k c r (e, (zero, all, q, cl)) =
      ended_with done total k c e (consume-last total k [] c q) (omega (arith, all))
  consume-Inv done total k c r (e, (suc n, all, q, cl)) =
      took_square done total k (squares (suc (suc k)) n ++ negsuc 0 ∷ []) c e q
        (n, omega (arith, all), refl, cl)
  consume-Inv killed total k c r (e, (zero, some_of, q, cl)) =
      ended_with killed total k c e (consume-end total k c q cl) (omega (arith, some_of))
  consume-Inv killed total k c r (e, (suc n, some_of, q, cl)) =
      took_square killed total k (squares (suc (suc k)) n) c e q
        (n, omega (arith, some_of), refl, cl)

  pub Step-Inv : {s s' : Pair C} → Step h s s' → Inv s → Inv s'
  Step-Inv (produces i s c) v = produce-Inv i s c v
  Step-Inv (closes s c) v = close-Inv s c v
  Step-Inv (consumes p total k c r) v = consume-Inv p total k c r v
  Step-Inv (kills i s c) v = kill-Inv i s c v
