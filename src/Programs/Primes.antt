-- ===== src/Programs/Primes.antt =====
-- programs/primos.c: trial division. The numbers are those of `long`, without its bound.
use minios_lab_edwin_jose.Base.{
  ℕ, zero, suc, ◌+◌, ◌*◌, ◌/◌, ◌%◌, ◌≤◌, ◌<◌, ◌≡◌, ◌≢◌, sym, ap, ◌∙◌, ◌⊎◌, inl, inr, Bool, true,
  false, Option, none, some, List, [], ◌∷◌, leb, ◌==◌, if◌then◌else◌, arith, eq-cases, eq-true,
  eq-false, Bool-cases, All, contains, ◌-◌, ◌++◌, map,
}
use minios_lab_edwin_jose.Base.Int.{ℤ, pos, pos_part}
use minios_lab_edwin_jose.Base.Text.{codes}
use minios_lab_edwin_jose.Machine.{CString, text, dec}
use minios_lab_edwin_jose.Programs.Act.{Act, tagged, given}
use native.Mathlib.Nat

-- The inner loop, from the divisor `d`; `none` if the fuel runs out.
pub trial : (fuel d n : ℕ) → Option Bool
trial zero d n = none
trial (suc k) d n =
    let rest = trial k (d + 1) n in
    if leb (d * d) n then (if n % d == 0 then some false else rest) else some true

pub is_prime : ℕ → Option Bool
is_prime n = trial n 2 n

-- No product of two numbers above 1.
abbrev pub IsPrime : ℕ → Type 0
IsPrime n = (a b : ℕ) → 2 ≤ a → 2 ≤ b → a * b ≢ n

-- None of 2, ..., d - 1 divides.
abbrev Tried : ℕ → ℕ → Type 0
Tried d n = (a : ℕ) → 2 ≤ a → a < d → n % a ≢ 0

square-le : (d a b : ℕ) → d ≤ a → d ≤ b → d * d ≤ a * b
square-le d a b da db = Nat.mul-le-mul da db

-- A divisor and its cofactor are not both above the square root.
Tried-IsPrime : (d n : ℕ) → n < d * d → Tried d n → IsPrime n
Tried-IsPrime d n lt tried a b a2 b2 e = elim (below a b) [
  | inl small ↦ tried a a2 small (ap (λ x. x % a) (sym e) ∙ Nat.mul-mod_right a b)
  | inr (inl small) ↦ tried b b2 small (ap (λ x. x % b) (sym e) ∙ Nat.mul-mod_left a b)
  | inr (inr (da, db)) ↦ omega (arith, square-le d a b da db, e)
]
  where
    below : (x y : ℕ) → (x < d) ⊎ (y < d) ⊎ ((d ≤ x) × (d ≤ y))
    below x y = ground arith

-- A divisor from 2 to the square root shows a product.
divisor-product :
    (d n : ℕ) → 2 ≤ d → d * d ≤ n → n % d ≡ 0 → (a : ℕ) × (b : ℕ) × (2 ≤ a) × (2 ≤ b) × (a * b ≡ n)
divisor-product d n d2 le e = (d, n / d, d2, two_up, whole)
  where
    whole : d * (n / d) ≡ n
    whole = omega (arith, Nat.div-add-mod n d)

    two_up : 2 ≤ n / d
    two_up = omega (
      arith,
      Nat.le_of_mul-le-mul_left {m = d} {n = n / d} {k = d} (omega (arith, whole)) (omega arith),
    )

-- What the test says of `n`.
abbrev pub Decides : ℕ → Option Bool → Type 0
Decides n none = true ≡ false
Decides n (some true) = IsPrime n
Decides n (some false) = (a : ℕ) × (b : ℕ) × (2 ≤ a) × (2 ≤ b) × (a * b ≡ n)

square-above : (d n : ℕ) → 2 ≤ d → n < d → n < d * d
square-above d n d2 lt =
    omega (arith, Nat.mul-lt-mul_of_pos_left {m = 1} {n = d} {k = d} (omega arith) (omega arith))

trial-Decides :
    (fuel d n : ℕ) → 2 ≤ d → n + 2 ≤ d + fuel → 0 < fuel → Tried d n → Decides n (trial fuel d n)
unfolding trial
trial-Decides zero d n d2 enough some_fuel tried = absurd (omega arith)
trial-Decides (suc k) d n d2 enough some_fuel tried = elim (Bool-cases (leb (d * d) n)) [
  | inl le ↦ elim (eq-cases (n % d) 0) [
    | inl e ↦ rw (le, eq-true (n % d) 0 e) (divisor-product d n d2 (ground arith) e)
    | inr ne ↦
        let small : d * d ≤ n = ground arith in
        rw (le, eq-false (n % d) 0 ne)
          (trial-Decides k (d + 1) n (omega arith) (omega arith) (more small) (λ a a2 lt.
            elim (eq-cases a d) [ inl same ↦ rw same ne | inr other ↦ tried a a2 (omega arith) ]))
  ]
  | inr gt ↦ rw gt (Tried-IsPrime d n (ground arith) tried)
]
  where
    more : d * d ≤ n → 0 < k
    more small = elim (eq-cases k 0) [
      | inl none_left ↦ omega (arith, square-above d n d2 (omega arith))
      | inr some_left ↦ omega arith
    ]

-- Trial division answers, for every number from 2, and its answer is right: a number that it calls prime is
-- no product of two numbers above 1, and one that it rejects is.
pub is_prime-Decides : (n : ℕ) → 2 ≤ n → Decides n (is_prime n)
unfolding is_prime
is_prime-Decides n n2 =
    trial-Decides n 2 n (omega arith) (omega arith) (omega arith) (λ a a2 lt. absurd (omega arith))

-- `if (is_prime)`: the number is printed before those that follow.
pub keep : Option Bool → ℕ → List ℕ → List ℕ
keep none n rest = rest
keep (some b) n rest = if b then n ∷ rest else rest

-- The outer loop over n, ..., n + rounds - 1: the numbers that it prints.
pub printed : (rounds n : ℕ) → List ℕ
printed zero n = []
printed (suc k) n = keep (is_prime n) n (printed k (n + 1))

module _ {D : Type 0} where
  -- The loop goes from 2 to the limit.
  pub primos : (atol : CString → ℤ) → ℕ → Option CString → List (Act D)
  primos atol pid arg =
      map (λ n. tagged (codes "[primos:") pid (dec (pos n) ∷ text (codes "\n") ∷ []))
        (printed (pos_part (given atol (pos 10_000) arg) - 1) 2)
      ++ tagged (codes "[primos:") pid (text (codes "Terminado!\n") ∷ []) ∷ []

-- The numbers that the program prints are primes, and all of those in the range.
pub printed-primes :
    (k n : ℕ)
    → 2 ≤ n
    → All IsPrime (printed k n)
      × ((x : ℕ) → n ≤ x → x < n + k → IsPrime x → contains x (printed k n) ≡ true)
unfolding printed keep
printed-primes zero n n2 = (tt, λ x ge lt p. absurd (omega arith))
printed-primes (suc k) n n2 =
    let (primes, all) = printed-primes k (n + 1) (omega arith) in
    round (is_prime n) (is_prime-Decides n n2) primes all
  where
    round :
        (o : Option Bool)
        → Decides n o
        → All IsPrime (printed k (n + 1))
        → ((x : ℕ) → n + 1 ≤ x → x < n + 1 + k → IsPrime x → contains x (printed k (n + 1)) ≡ true)
        → let l = keep o n (printed k (n + 1)) in
          All IsPrime l × ((x : ℕ) → n ≤ x → x < n + suc k → IsPrime x → contains x l ≡ true)
    round none d primes all = absurd (cc d)
    round (some true) d primes all = (
      (d, primes),
      λ x ge lt p. elim (eq-cases n x) [
        | inl same ↦ ground (arith, same)
        | inr ne ↦ ground (arith, all x (omega arith) (omega arith) p)
      ],
    )
    round (some false) (a, b, a2, b2, e) primes all = (
      primes,
      λ x ge lt p. elim (eq-cases n x) [
        | inl same ↦ absurd (p a b a2 b2 (e ∙ same))
        | inr ne ↦ all x (omega arith) (omega arith) p
      ],
    )
