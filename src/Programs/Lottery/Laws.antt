-- ===== src/Programs/Lottery/Laws.antt =====
-- What programs/loteria.c says last.
use minios_lab_edwin_jose.Base.{
  ℕ, zero, suc, ◌+◌, ◌-◌, ◌*◌, ◌%◌, ◌≤◌, ◌<◌, ◌≡◌, ◌∙◌, refl, sym, ap, true, false, List, [], ◌∷◌,
  ◌==◌, Option, none, some, arith, Bool-cases, inl, inr, ◌⊎◌, eq-cases, if-rule,
}
use minios_lab_edwin_jose.Programs.Lottery.{
  Stream, Report, found_at, still_trying, not_found, digit, winning, play, loteria, attempt_limit,
}

abbrev last : List Report → Option Report
last [] = none
last (x ∷ []) = some x
last (x ∷ y ∷ ys) = last (y ∷ ys)

last-cons : (x r : Report) (xs : List Report) → last xs ≡ some r → last (x ∷ xs) ≡ some r
last-cons x r [] h = absurd (cc h)
last-cons x r (y ∷ ys) h = h

-- The digits of a winning attempt are equal.
winning-equal :
    (rand : Stream) (n : ℕ)
    → winning rand n ≡ true
    → (digit rand n 0 ≡ digit rand n 1) × (digit rand n 1 ≡ digit rand n 2)
unfolding winning
winning-equal rand n h = ground arith

-- The last report tells of the first attempt that wins by the test of the program, with its digits, or that
-- there is none.
abbrev Verdict : Stream → (before final : ℕ) → List Report → Type 0
Verdict rand before final reports =
    ((k : ℕ) × (before < k)
      × (k ≤ final)
      × (winning rand k ≡ true)
      × ((j : ℕ) → before < j → j < k → winning rand j ≡ false)
      × (last reports ≡ some (found_at (digit rand k 0) (digit rand k 1) (digit rand k 2) k)))
    ⊎ (((j : ℕ) → before < j → j ≤ final → winning rand j ≡ false)
        × (last reports ≡ some (not_found final)))

-- The attempt that comes next lost.
Verdict-skip :
    (rand : Stream) (before final : ℕ) (xs ys : List Report)
    → winning rand (before + 1) ≡ false
    → ((r : Report) → last xs ≡ some r → last ys ≡ some r)
    → Verdict rand (before + 1) final xs
    → Verdict rand before final ys
Verdict-skip rand before final xs ys lost at (inl (k, lo, hi, won, first, said)) = inl (
  k,
  omega (arith, lo),
  hi,
  won,
  (λ j above below. elim (eq-cases j (before + 1)) [
    | inl e ↦ rw e lost
    | inr e ↦ first j (omega (arith, above, e)) below
  ]),
  at (found_at (digit rand k 0) (digit rand k 1) (digit rand k 2) k) said,
)
Verdict-skip rand before final xs ys lost at (inr (none_won, said)) = inr (
  (λ j above below. elim (eq-cases j (before + 1)) [
    | inl e ↦ rw e lost
    | inr e ↦ none_won j (omega (arith, above, e)) below
  ]),
  at (not_found final) said,
)

-- The attempt that comes next wins.
Verdict-win :
    (rand : Stream) (before final : ℕ)
    → before < final
    → winning rand (before + 1) ≡ true
    → Verdict rand before final (
        found_at
          (digit rand (before + 1) 0)
          (digit rand (before + 1) 1)
          (digit rand (before + 1) 2)
          (before + 1)
        ∷ [])
Verdict-win rand before final room won =
    let n = before + 1 in
    inl (n, omega arith, omega (arith, room), won, (λ j above below. ground arith), refl)

play-Verdict :
    (rand : Stream) (rounds before final : ℕ)
    → final ≡ before + rounds
    → Verdict rand before final (play rand rounds before)
unfolding play
play-Verdict rand zero before final at = inr (
  (λ j above below. ground arith),
  (let same : before ≡ final = omega (arith, at) in ap (λ n. some (not_found n)) same),
)
play-Verdict rand (suc rounds) before final at =
    let n = before + 1 in
    let rest = play-Verdict rand rounds n final (omega (arith, at)) in
    let reports = play rand rounds n in
    elim (Bool-cases (winning rand n)) [
      | inl won ↦ rw won (Verdict-win rand before final (omega (arith, at)) won)
      | inr lost ↦ rw lost (
          if-rule (λ xs. Verdict rand before final xs) (n % 1000 == 0)
            (still_trying n (digit rand n 0) (digit rand n 1) (digit rand n 2) ∷ reports) reports
            (λ e.
              Verdict-skip rand before final reports
                (still_trying n (digit rand n 0) (digit rand n 1) (digit rand n 2) ∷ reports) lost
                (λ r h.
                  last-cons (still_trying n (digit rand n 0) (digit rand n 1) (digit rand n 2)) r
                    reports h)
                rest)
            (λ e. Verdict-skip rand before final reports reports lost (λ r h. h) rest))
    ]

-- The digits that attempt `k` draws: three numbers of the stream after those of the attempts before it.
abbrev pub drawn : Stream → (k place : ℕ) → ℕ
drawn rand k place = rand (3 * (k - 1) + place) % 10

abbrev pub AllEqual : Stream → ℕ → Type 0
AllEqual rand k = (drawn rand k 0 ≡ drawn rand k 1) × (drawn rand k 1 ≡ drawn rand k 2)

digit-drawn : (rand : Stream) (k place : ℕ) → digit rand k place ≡ drawn rand k place
unfolding digit
digit-drawn rand k place = ap (λ i. rand i % 10) (omega arith)

winning-AllEqual : (rand : Stream) (k : ℕ) → winning rand k ≡ true → AllEqual rand k
winning-AllEqual rand k won =
    let (e, e1) = winning-equal rand k won in
    (
      sym (digit-drawn rand k 0) ∙ (e ∙ digit-drawn rand k 1),
      sym (digit-drawn rand k 1) ∙ (e1 ∙ digit-drawn rand k 2),
    )

losing-AllEqual : (rand : Stream) (k : ℕ) → winning rand k ≡ false → ¬ (AllEqual rand k)
unfolding winning
losing-AllEqual rand k lost (e, e1) =
    let d = digit-drawn rand k 0 ∙ (e ∙ sym (digit-drawn rand k 1)) in
    let d1 = digit-drawn rand k 1 ∙ (e1 ∙ sym (digit-drawn rand k 2)) in ground arith

-- The last report names the first attempt whose three digits are equal, with the digits that it draws, or says that
-- none of the first `final` has them.
abbrev pub IsTrue : Stream → (final : ℕ) → List Report → Type 0
IsTrue rand final reports =
    ((k : ℕ) × (0 < k)
      × (k ≤ final)
      × AllEqual rand k
      × ((j : ℕ) → 0 < j → j < k → ¬ (AllEqual rand j))
      × (last reports ≡ some (found_at (drawn rand k 0) (drawn rand k 1) (drawn rand k 2) k)))
    ⊎ (((j : ℕ) → 0 < j → j ≤ final → ¬ (AllEqual rand j))
        × (last reports ≡ some (not_found final)))

-- What the program says last is true: either the attempt that it names is the first of at most
-- 100000 with three equal digits, and those that it reports are the digits which the attempt draws, or none of
-- 100000 attempts has them.
pub loteria-IsTrue : (rand : Stream) → IsTrue rand attempt_limit (loteria rand)
unfolding loteria
loteria-IsTrue rand = elim (play-Verdict rand attempt_limit 0 attempt_limit refl) [
  | inl (k, lo, hi, won, first, said) ↦ inl (
    k,
    lo,
    hi,
    winning-AllEqual rand k won,
    (λ j above below. losing-AllEqual rand j (first j above below)),
    rw (sym (digit-drawn rand k 0), sym (digit-drawn rand k 1), sym (digit-drawn rand k 2)) said,
  )
  | inr (none_won, said) ↦
      inr ((λ j above below. losing-AllEqual rand j (none_won j above below)), said)
]
