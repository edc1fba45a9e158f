-- ===== src/Programs/BusyLoop/Laws.antt =====
-- The busy loop ends at the first look at the clock at which the time is up.
use minios_lab_edwin_jose.Base.{
  ℕ, zero, suc, ◌+◌, ◌*◌, ◌%◌, ◌^◌, ◌≤◌, ◌<◌, ◌≡◌, refl, ap, ◌∙◌, Bool, true, false, some, arith,
  Bool-cases, inl, inr,
}
use minios_lab_edwin_jose.Machine.{Machine, Timespec}
use minios_lab_edwin_jose.Programs.BusyLoop.{
  Spin, check_every, mix, burst, elapsed, spin, busy_loop,
}

-- So many rounds are counted, modulo 2 ^ 64.
burst-total_iters :
    (k : ℕ) (s : Spin)
    → s.total_iters < 2 ^ 64
    → (burst k s).total_iters ≡ (s.total_iters + k) % 2 ^ 64
unfolding burst mix
burst-total_iters zero s lt = omega arith
burst-total_iters (suc k) s lt = omega (arith, burst-total_iters k (mix s) (omega arith))

check_every-value : check_every ≡ 2 ^ 22
unfolding check_every
check_every-value = refl

burst-fits : (s : Spin) → s.total_iters < 2 ^ 64 → (burst check_every s).total_iters < 2 ^ 64
burst-fits s lt = omega (arith, burst-total_iters check_every s lt)

one_burst :
    (s : Spin)
    → s.total_iters < 2 ^ 64
    → (burst check_every s).total_iters ≡ (s.total_iters + (0 + 1) * check_every) % 2 ^ 64
one_burst s lt =
    burst-total_iters check_every s lt ∙ ap (λ x. (s.total_iters + x) % 2 ^ 64) (omega arith)

-- The arithmetic of one burst before the others.
more_bursts :
    (s s' : Spin) (n : ℕ)
    → s.total_iters < 2 ^ 64
    → s'.total_iters ≡ ((burst check_every s).total_iters + (n + 1) * check_every) % 2 ^ 64
    → s'.total_iters ≡ (s.total_iters + (suc n + 1) * check_every) % 2 ^ 64
more_bursts s s' n lt e = omega (
  arith,
  e,
  burst-total_iters check_every s lt,
  ap (λ c. (n + 1) * c) check_every-value,
  ap (λ c. (suc n + 1) * c) check_every-value,
  check_every-value,
)

module _ {W D : Type 0} (m : Machine W D) where
  -- The outside world before the look at the clock with this number.
  abbrev pub looks : ℕ → W → W
  looks zero w = w
  looks (suc n) w = looks n (m.clock_gettime w).1

  -- Whether the time is up at that look.
  abbrev pub up : (D → Bool) → Timespec → ℕ → W → Bool
  up reached start n w = reached (elapsed m start (m.clock_gettime (looks n w)).0)

  -- The loop that began at `start` ends at the look `n`, the first at which the time is up, with that many bursts.
  abbrev pub EndsAt : (D → Bool) → Timespec → (fuel : ℕ) → Spin → W → ℕ → Type 0
  EndsAt reached start fuel s w n =
      ((j : ℕ) → j < n → up reached start j w ≡ false)
      × (up reached start n w ≡ true)
      × ((s' : Spin) × (spin m reached fuel start s w ≡ some (s', looks (suc n) w))
          × (s'.total_iters ≡ (s.total_iters + (n + 1) * check_every) % 2 ^ 64))

  spin-EndsAt :
      (reached : D → Bool) (start : Timespec) (k : ℕ) (s : Spin) (w : W)
      → s.total_iters < 2 ^ 64
      → up reached start k w ≡ true
      → (n : ℕ) × (n ≤ k) × EndsAt reached start (suc k) s w n
  unfolding spin
  spin-EndsAt reached start zero s w lt e =
      (0, omega arith, ((λ j l. absurd (omega (arith, l))), e, last s w lt e))
    where
      last :
          (s : Spin) (w : W)
          → s.total_iters < 2 ^ 64
          → up reached start 0 w ≡ true
          → (s' : Spin) × (spin m reached 1 start s w ≡ some (s', looks 1 w))
            × (s'.total_iters ≡ (s.total_iters + (0 + 1) * check_every) % 2 ^ 64)
      last s w lt e = (burst check_every s, rw e refl, one_burst s lt)
  spin-EndsAt reached start (suc k) s w lt e = elim (Bool-cases (up reached start 0 w)) [
    | inl now ↦ (
      0,
      omega arith,
      ((λ j l. absurd (omega (arith, l))), now, (burst check_every s, rw now refl, one_burst s lt)),
    )
    | inr not_yet ↦
        let (n, le, (before, at, (s', ends, counted))) =
          spin-EndsAt reached start k (burst check_every s) (m.clock_gettime w).1 (burst-fits s lt)
            e in
        (
          suc n,
          omega (arith, le),
          (first n before not_yet, at, (s', rw not_yet ends, more_bursts s s' n lt counted)),
        )
  ]
    where
      first :
          (n : ℕ)
          → ((j : ℕ) → j < n → up reached start j (m.clock_gettime w).1 ≡ false)
          → up reached start 0 w ≡ false
          → (j : ℕ) → j < suc n
          → up reached start j w ≡ false
      first n before now zero l = now
      first n before now (suc j) l = before j (omega (arith, l))

  -- If the time is up at some look at the clock, the program ends: at the first such look, `n`, after n + 1
  -- bursts, so that it has counted (n + 1) times 2^22 rounds, modulo 2^64.
  pub busy_loop-ends :
      (reached : D → Bool) (k : ℕ) (w : W)
      → up reached (m.clock_gettime w).0 k (m.clock_gettime w).1 ≡ true
      → let (start, w1) = m.clock_gettime w in
        (n : ℕ) × (n ≤ k)
        × ((j : ℕ) → j < n → up reached start j w1 ≡ false)
        × (up reached start n w1 ≡ true)
        × ((s' : Spin) × (busy_loop m reached (suc k) w ≡ some (s', looks (suc n) w1))
            × (s'.total_iters ≡ (n + 1) * 2 ^ 22 % 2 ^ 64))
  unfolding busy_loop
  busy_loop-ends reached k w e =
      let (start, w1) = m.clock_gettime w in
      let (n, le, (before, at, (s', ends, counted))) =
        spin-EndsAt reached start k (record { sum = 0; total_iters = 0 }) w1 (omega arith) e in
      (
        n,
        le,
        before,
        at,
        (s', ends, counted ∙ ap (λ c. (0 + (n + 1) * c) % 2 ^ 64) check_every-value ∙ omega arith),
      )
