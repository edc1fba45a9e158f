-- ===== src/Base/Lists.antt =====
-- Lists measured by native numbers, and predicates on lists of table indices.
use Prim.Native.Nat.{ℕ, zero, suc, ◌+◌, ◌≤◌, ◌<◌}
use mathlib.Core.Path.{◌≡◌, refl, sym, ap}
use mathlib.Core.Logic.{◌≢◌, inl, inr}
use mathlib.Core.Bool.{Bool, true, false, ◌||◌}
use mathlib.Core.List.{List, [], ◌∷◌, ◌++◌}
use native.Mathlib.Omega.{arith}
use minios_lab_edwin_jose.Base.Tests.{◌==◌, if◌then◌else◌, eq-cases, eq-true, eq-false}

module _ {ℓ} {A : Type ℓ} where
  abbrev pub length : List A → ℕ
  length [] = 0
  length (x ∷ xs) = suc (length xs)

  abbrev pub take : ℕ → List A → List A
  take zero xs = []
  take (suc n) [] = []
  take (suc n) (x ∷ xs) = x ∷ take n xs

  pub length-append : (xs ys : List A) → length (xs ++ ys) ≡ length xs + length ys
  length-append [] ys = omega arith
  length-append (x ∷ xs) ys = omega (arith, length-append xs ys)

abbrev pub All {ℓ κ} : {A : Type ℓ} → (A → Type κ) → List A → Type κ
All P [] = Unit
All P (x ∷ xs) = P x × All P xs

pub All-append {ℓ κ} :
    {A : Type ℓ} (P : A → Type κ) (xs ys : List A) → All P xs → All P ys → All P (xs ++ ys)
All-append P [] ys hx hy = hy
All-append P (x ∷ xs) ys hx hy = (hx.0, All-append P xs ys hx.1 hy)

pub All-mono {ℓ κ μ} :
    {A : Type ℓ} (P : A → Type κ) (Q : A → Type μ) (xs : List A)
    → ((a : A) → P a → Q a)
    → All P xs
    → All Q xs
All-mono P Q [] f h = tt
All-mono P Q (x ∷ xs) f h = (f x h.0, All-mono P Q xs f h.1)

pub All-both {ℓ κ μ} :
    {A : Type ℓ} (P : A → Type κ) (Q : A → Type μ) (xs : List A)
    → All P xs
    → All Q xs
    → All (λ a. P a × Q a) xs
All-both P Q [] h k = tt
All-both P Q (x ∷ xs) h k = ((h.0, k.0), All-both P Q xs h.1 k.1)

-- `i` does not occur in the list.
abbrev pub Absent : ℕ → List ℕ → Type 0
Absent i = All (λ j. j ≢ i)

-- No number occurs twice.
abbrev pub Distinct : List ℕ → Type 0
Distinct [] = Unit
Distinct (x ∷ xs) = Absent x xs × Distinct xs

abbrev pub contains : ℕ → List ℕ → Bool
contains i [] = false
contains i (j ∷ js) = (j == i) || contains i js

-- The list with every occurrence of `i` left out.
abbrev pub without : ℕ → List ℕ → List ℕ
without i [] = []
without i (j ∷ js) = if j == i then without i js else j ∷ without i js

pub All-without {ℓ} :
    (P : ℕ → Type ℓ) (i : ℕ) (xs : List ℕ) → All P xs → All (λ j. (j ≢ i) × P j) (without i xs)
All-without P i [] h = tt
All-without P i (x ∷ xs) h = elim (eq-cases x i) [
  | inl e ↦ rw (eq-true x i e) (All-without P i xs h.1)
  | inr e ↦ rw (eq-false x i e) ((e, h.0), All-without P i xs h.1)
]

pub Distinct-without : (i : ℕ) (xs : List ℕ) → Distinct xs → Distinct (without i xs)
Distinct-without i [] h = tt
Distinct-without i (x ∷ xs) h = elim (eq-cases x i) [
  | inl e ↦ rw (eq-true x i e) (Distinct-without i xs h.1)
  | inr e ↦ rw (eq-false x i e) (
    All-mono (λ j. (j ≢ i) × (j ≢ x)) (λ j. j ≢ x) (without i xs) (λ j p. p.1)
        (All-without (λ j. j ≢ x) i xs h.0),
    Distinct-without i xs h.1,
  )
]

pub without-Absent : (i : ℕ) (xs : List ℕ) → Absent i xs → without i xs ≡ xs
without-Absent i [] h = refl
without-Absent i (x ∷ xs) h = ground (arith, without-Absent i xs h.1)

pub Distinct-snoc : (i : ℕ) (xs : List ℕ) → Absent i xs → Distinct xs → Distinct (xs ++ i ∷ [])
Distinct-snoc i [] h d = (tt, tt)
Distinct-snoc i (x ∷ xs) h d =
    (All-append (λ j. j ≢ x) xs (i ∷ []) d.0 ((λ e. h.0 (sym e)), tt), Distinct-snoc i xs h.1 d.1)

pub length-without : (i : ℕ) (xs : List ℕ) → length (without i xs) ≤ length xs
length-without i [] = omega arith
length-without i (x ∷ xs) = ground (arith, length-without i xs)

-- Of distinct numbers at most one is left out.
length-le-without : (i : ℕ) (xs : List ℕ) → Distinct xs → length xs ≤ length (without i xs) + 1
length-le-without i [] d = omega arith
length-le-without i (x ∷ xs) d = ground (
  arith,
  length-le-without i xs d.1,
  without-Absent x xs d.0,
  ap length (without-Absent x xs d.0),
)

-- Distinct numbers below `n` are at most `n`.
pub Distinct-length : (n : ℕ) (xs : List ℕ) → All (λ j. j < n) xs → Distinct xs → length xs ≤ n
Distinct-length zero [] h d = omega arith
Distinct-length zero (x ∷ xs) h d = absurd (omega arith)
Distinct-length (suc n) xs h d = omega (
  arith,
  length-le-without n xs d,
  Distinct-length n (without n xs)
      (All-mono (λ j. (j ≢ n) × (j < suc n)) (λ j. j < n) (without n xs) (λ j p. omega arith)
        (All-without (λ j. j < suc n) n xs h))
      (Distinct-without n xs d),
)

pub without-missing : (i : ℕ) (xs : List ℕ) → contains i xs ≡ false → without i xs ≡ xs
without-missing i [] h = refl
without-missing i (x ∷ xs) h = ground (arith, without-missing i xs)

pub length-without_lt :
    (i : ℕ) (xs : List ℕ) → contains i xs ≡ true → length (without i xs) < length xs
length-without_lt i [] h = cc
length-without_lt i (x ∷ xs) h = ground (arith, length-without_lt i xs, length-without i xs)

pub contains-Absent : (i : ℕ) (xs : List ℕ) → Absent i xs → contains i xs ≡ false
contains-Absent i [] h = refl
contains-Absent i (x ∷ xs) h = ground (arith, contains-Absent i xs h.1)
