-- ===== src/Programs/Sockets/Laws.antt =====
-- The retries of the clients of programs/.
use minios_lab_edwin_jose.Base.{
  ℕ, zero, suc, ◌<◌, ◌≡◌, refl, Bool, true, false, arith, Bool-cases, inl, inr, ◌⊎◌,
}
use minios_lab_edwin_jose.Machine.{CString}
use minios_lab_edwin_jose.Programs.Sockets.{Sockets, sun_path, attempts}

module _ {W : Type 0} (k : Sockets W) (fd : ℕ) (path : CString) where
  -- The answer of the next attempt, and the outside world once `n` attempts have failed.
  abbrev pub answer : W → Bool
  answer w = (k.connect fd (sun_path path) w).0

  abbrev pub refused : ℕ → W → W
  refused zero w = w
  refused (suc n) w = refused n (k.usleep 100_000 (k.connect fd (sun_path path) w).1)

  one_more :
      (n : ℕ) (w : W)
      → answer w ≡ false
      → ((j : ℕ) → j < n → answer (refused (suc j) w) ≡ false)
      → (j : ℕ) → j < suc n
      → answer (refused j w) ≡ false
  one_more n w now later zero lt = now
  one_more n w now later (suc j) lt = later j (omega arith)

  -- The client connects at the first attempt that succeeds, and has then made no other call; it gives up
  -- only when all of its attempts have failed.
  pub attempts-first :
      (rounds : ℕ) (w : W)
      → ((n : ℕ) × (n < rounds)
          × (answer (refused n w) ≡ true)
          × ((j : ℕ) → j < n → answer (refused j w) ≡ false)
          × (attempts k rounds fd path w ≡ (true, (k.connect fd (sun_path path) (refused n w)).1)))
        ⊎ (((j : ℕ) → j < rounds → answer (refused j w) ≡ false)
            × (attempts k rounds fd path w ≡ (false, refused rounds w)))
  unfolding attempts
  attempts-first zero w = inr (λ j lt. absurd (omega arith), refl)
  attempts-first (suc r) w = elim (Bool-cases (answer w)) [
    | inl yes_now ↦ inl (0, omega arith, yes_now, λ j lt. absurd (omega arith), rw yes_now refl)
    | inr not_now ↦
        let w1 = k.usleep 100_000 (k.connect fd (sun_path path) w).1 in
        elim (attempts-first r w1) [
          | inl (n, lt, hit, misses, e) ↦
              inl (suc n, omega arith, hit, one_more n w not_now misses, rw not_now e)
          | inr (misses, e) ↦ inr (one_more r w not_now misses, rw not_now e)
        ]
  ]
