-- ===== src/Tests/Loops.antt =====
-- The theorems on the sample programs that count, at concrete inputs.
use minios_lab_edwin_jose.Base.{
  ℕ, suc, ◌+◌, ◌*◌, ◌%◌, ◌^◌, ◌≤◌, ◌<◌, ◌≡◌, refl, Bool, true, false, none, some, List, [], ◌∷◌,
  ◌++◌, map, All, leb, arith,
}
use minios_lab_edwin_jose.Base.Int.{pos, pos_part}
use minios_lab_edwin_jose.Base.Text.{codes}
use minios_lab_edwin_jose.Machine.{Machine, text}
use minios_lab_edwin_jose.Programs.Act.{tagged}
use minios_lab_edwin_jose.Programs.Fibonacci.{fibonacci, row, numbers, Fits, fibonacci-Fits}
use minios_lab_edwin_jose.Programs.BusyLoop.{Spin, busy_loop, elapsed}
use minios_lab_edwin_jose.Programs.BusyLoop.Laws.{looks, up, busy_loop-ends}
use minios_lab_edwin_jose.Tests.Data.{obedient}

-- Without an argument, 45 numbers.
fibonacci-Fits_example :
    (rows : List (ℕ × ℕ)) × (fibonacci {D = ℕ} (λ s. pos 0) 7 none
      ≡ map (row 7) rows ++ tagged (codes "[fibonacci:") 7 (text (codes "Terminado!\n") ∷ []) ∷ [])
    × (map (λ r. r.0) rows ≡ numbers 45 1)
    × All Fits rows
fibonacci-Fits_example = fibonacci-Fits (λ s. pos 0) 7 none 45 refl (omega arith)

-- A clock that goes on by a second at each look.
abbrev ticking : Machine ℕ ℕ
ticking = record obedient {
  clock_gettime = λ w. (record { tv_sec = pos w; tv_nsec = pos 0 }, suc w);
  of_int = pos_part;
  div = λ a b. 0;
}

abbrev after_three : ℕ → Bool
after_three d = leb 3 d

up_at_5 : up ticking after_three (ticking.clock_gettime 10).0 5 (ticking.clock_gettime 10).1 ≡ true
unfolding elapsed
up_at_5 = refl

busy_loop-ends_example :
    let (start, w1) = ticking.clock_gettime 10 in
    (n : ℕ) × (n ≤ 5)
    × ((j : ℕ) → j < n → up ticking after_three start j w1 ≡ false)
    × (up ticking after_three start n w1 ≡ true)
    × ((s' : Spin) × (busy_loop ticking after_three 6 10 ≡ some (s', looks ticking (suc n) w1))
        × (s'.total_iters ≡ (n + 1) * 2 ^ 22 % 2 ^ 64))
busy_loop-ends_example = busy_loop-ends ticking after_three 5 10 up_at_5
