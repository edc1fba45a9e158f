-- ===== src/Programs/Lottery.antt =====
-- programs/loteria.c: three digits are drawn until they are equal, at most 100000 times.
pub mod Laws
use minios_lab_edwin_jose.Base.{
  ℕ, zero, suc, ◌+◌, ◌*◌, ◌-◌, ◌%◌, ◌≤◌, ◌<◌, ◌≡◌, ◌≢◌, refl, ap, Bool, true, false, List, [], ◌∷◌,
  ◌==◌, ◌&&◌, if◌then◌else◌, arith, Bool-cases, inl, inr,
}

abbrev pub attempt_limit : ℕ
attempt_limit = 100_000

-- The numbers that `rand` returns after `srand(seed)`, in order.
abbrev pub Stream : Type 0
Stream = ℕ → ℕ

pub data Report : Type 0 where
  found_at : (a b c attempts : ℕ) → Report
  still_trying : (attempts a b c : ℕ) → Report
  not_found : (attempts : ℕ) → Report

-- A digit of an attempt, the attempts counted from 1.
pub digit : Stream → (attempts place : ℕ) → ℕ
digit rand attempts place = rand ((attempts - 1) * 3 + place) % 10

pub winning : Stream → ℕ → Bool
winning rand attempts =
    let a = digit rand attempts 0 in
    let b = digit rand attempts 1 in let c = digit rand attempts 2 in (a == b) && (b == c)

-- The loop with `rounds` attempts left and `before` made.
pub play : Stream → (rounds before : ℕ) → List Report
play rand zero before = not_found before ∷ []
play rand (suc rounds) before =
    let attempts = before + 1 in
    let a = digit rand attempts 0 in
    let b = digit rand attempts 1 in
    let c = digit rand attempts 2 in
    let rest = play rand rounds attempts in
    if winning rand attempts
    then found_at a b c attempts ∷ []
    else if attempts % 1000 == 0
    then still_trying attempts a b c ∷ rest
    else rest

pub loteria : Stream → List Report
loteria rand = play rand attempt_limit 0
