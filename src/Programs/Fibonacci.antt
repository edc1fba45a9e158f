-- ===== src/Programs/Fibonacci.antt =====
-- programs/fibonacci.c: the recursive function, and the table of its values that the program prints.
use minios_lab_edwin_jose.Base.{
  subst, sym, refl, ap, ◌-◌, ◌^◌, ◌≤◌, ◌<◌, ℕ, zero, suc, ◌+◌, ◌≡◌, ◌∙◌, arith, Option, List, [],
  ◌∷◌, ◌++◌, map, All,
}
use minios_lab_edwin_jose.Base.Int.{ℤ, pos, pos_part}
use minios_lab_edwin_jose.Base.Text.{codes}
use minios_lab_edwin_jose.Machine.{CString, text, dec}
use minios_lab_edwin_jose.Programs.Act.{Act, tagged, given}

-- The values from 1 on; `long long` without its bound.
pub fib : ℕ → ℕ
fib zero = 0
fib (suc zero) = 1
fib (suc (suc n)) = fib (suc n) + fib n

-- The same by a loop that keeps two values.
abbrev pub pairs : (rounds a b : ℕ) → ℕ
pairs zero a b = a
pairs (suc k) a b = pairs k b (a + b)

fib-pairs : (k n : ℕ) → pairs k (fib n) (fib (suc n)) ≡ fib (k + n)
unfolding fib
fib-pairs zero n = ap fib (omega arith)
fib-pairs (suc k) n =
    ap (λ x. pairs k (fib (suc n)) x) (omega arith) ∙ fib-pairs k (suc n) ∙ ap fib (omega arith)

fib-suc : (n : ℕ) → fib n ≤ fib (suc n)
unfolding fib
fib-suc zero = omega arith
fib-suc (suc n) = omega arith

fib_mono : (k n : ℕ) → fib n ≤ fib (n + k)
fib_mono zero n = omega (arith, ap fib (plus_zero n))
  where
    plus_zero : (x : ℕ) → x ≡ x + 0
    plus_zero x = omega arith
fib_mono (suc k) n = omega (arith, fib_mono k n, fib-suc (n + k), ap fib (shift n))
  where
    shift : (x : ℕ) → suc (x + k) ≡ x + suc k
    shift x = omega arith

fib-pairs_from_zero : (k : ℕ) → pairs k 0 1 ≡ fib k
unfolding fib
fib-pairs_from_zero k = fib-pairs k 0 ∙ ap fib (omega arith)

fib_last : 7540113804746346429 ≡ fib 92
fib_last = fib-pairs_from_zero 92

fib_mono_to : (n : ℕ) → n ≤ 92 → fib n ≤ fib 92
fib_mono_to n le = subst (λ x. fib n ≤ fib x) (omega arith) (fib_mono (92 - n) n)

-- Up to `fib(92)` no value overflows a signed 64-bit integer.
fib-fits : (n : ℕ) → n ≤ 92 → fib n < 2 ^ 63
fib-fits n le =
    subst (λ x. fib n ≤ x → fib n < 2 ^ 63) fib_last (λ h. omega arith) (fib_mono_to n le)

-- The values that the loop prints, with their numbers, from `i` on.
pub table : (rounds i : ℕ) → List (ℕ × ℕ)
table zero i = []
table (suc k) i = (i, fib i) ∷ table k (i + 1)

module _ {D : Type 0} where
  pub row : ℕ → ℕ × ℕ → Act D
  row pid (i, value) = tagged (codes "[fibonacci:") pid (
      text (codes "fib(")
      ∷ dec (pos i)
      ∷ text (codes ") = ")
      ∷ dec (pos value)
      ∷ text (codes "\n")
      ∷ [])

  pub fibonacci : (CString → ℤ) → ℕ → Option CString → List (Act D)
  fibonacci atoi pid arg =
      map (row pid) (table (pos_part (given atoi (pos 45) arg)) 1)
      ++ tagged (codes "[fibonacci:") pid (text (codes "Terminado!\n") ∷ []) ∷ []

-- n, n + 1, ..., so many of them.
abbrev pub numbers : (rounds n : ℕ) → List ℕ
numbers zero n = []
numbers (suc k) n = n ∷ numbers k (n + 1)

table-numbers : (k i : ℕ) → map (λ r. r.0) (table k i) ≡ numbers k i
unfolding table
table-numbers zero i = refl
table-numbers (suc k) i = ap (λ l. i ∷ l) (table-numbers k (i + 1))

-- What the loop with two values gives, within 63 bits.
abbrev pub Fits : ℕ × ℕ → Type 0
Fits (i, value) = (value ≡ pairs i 0 1) × (value < 2 ^ 63)

table-Fits : (k i : ℕ) → i + k ≤ 93 → All Fits (table k i)
unfolding table
table-Fits zero i le = tt
table-Fits (suc k) i le =
    ((sym (fib-pairs_from_zero i), fib-fits i (omega arith)), table-Fits k (i + 1) (omega arith))

-- For a number up to 92 the program prints the values with the numbers 1, 2, ..., n, in this order, and a last
-- line; each is what the addition of the last two gives, starting with 0 and 1, and none overflows a signed
-- 64-bit integer.
pub fibonacci-Fits :
    {D : Type 0} (atoi : CString → ℤ) (pid : ℕ) (arg : Option CString) (n : ℕ)
    → given atoi (pos 45) arg ≡ pos n
    → n ≤ 92
    → (rows : List (ℕ × ℕ)) × (fibonacci {D = D} atoi pid arg
        ≡ map (row pid) rows
          ++ tagged (codes "[fibonacci:") pid (text (codes "Terminado!\n") ∷ []) ∷ [])
      × (map (λ r. r.0) rows ≡ numbers n 1)
      × All Fits rows
unfolding fibonacci
fibonacci-Fits atoi pid arg n e le =
    (table n 1, rw e refl, table-numbers n 1, table-Fits n 1 (omega arith))
