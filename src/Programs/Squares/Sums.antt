-- ===== src/Programs/Squares/Sums.antt =====
-- Sums of squares.
use minios_lab_edwin_jose.Base.{
  ℕ, zero, suc, ◌+◌, ◌-◌, ◌*◌, subst, ◌≤◌, ◌≡◌, ap, ◌∙◌, List, [], ◌∷◌, ◌++◌, arith,
}
use minios_lab_edwin_jose.Base.Int.{ℤ, pos, ◌+ℤ◌}

-- The squares of lo, ..., lo + n - 1.
abbrev pub squares : ℕ → ℕ → List ℤ
squares lo zero = []
squares lo (suc n) = pos (lo * lo) ∷ squares (suc lo) n

pub squares-snoc : (lo n : ℕ) → squares lo n ++ pos ((lo + n) * (lo + n)) ∷ [] ≡ squares lo (suc n)
squares-snoc lo zero = ap (λ x. pos (x * x) ∷ []) (omega arith)
squares-snoc lo (suc n) =
    ap (λ x. pos (lo * lo) ∷ (squares (suc lo) n ++ pos (x * x) ∷ [])) (omega arith)
    ∙ ap (λ l. pos (lo * lo) ∷ l) (squares-snoc (suc lo) n)

abbrev pub sum_squares : ℕ → ℕ
sum_squares zero = 0
sum_squares (suc n) = sum_squares n + suc n * suc n

pub pos-add : (a b : ℕ) → pos a +ℤ pos b ≡ pos (a + b)
pos-add a b = ground arith

sum_squares_mono : (k n : ℕ) → sum_squares k ≤ sum_squares (n + k)
sum_squares_mono k zero = omega (arith, ap sum_squares (zero_add k))
  where
    zero_add : (x : ℕ) → 0 + x ≡ x
    zero_add x = omega arith
sum_squares_mono k (suc n) = omega (arith, ap sum_squares (shift n k), sum_squares_mono k n)
  where
    shift : (x y : ℕ) → suc x + y ≡ suc (x + y)
    shift x y = omega arith

pub sum_squares-le : (k : ℕ) → k ≤ 30 → sum_squares k ≤ 9455
sum_squares-le k le =
    let whole : 30 - k + k ≡ 30 = omega arith in
    subst (λ x. sum_squares k ≤ sum_squares x) whole (sum_squares_mono k (30 - k))
