-- ===== src/RoundRobin/Order.antt =====
-- The place of a process in the queue, and what dispatching does to it.
use minios_lab_edwin_jose.Base.{
  ℕ, suc, ◌<◌, ◌≡◌, ◌≢◌, true, Option, List, [], ◌∷◌, ◌++◌, ◌==◌, if◌then◌else◌, arith, contains,
  contains-Absent, Absent, Distinct, eq-false,
}
use minios_lab_edwin_jose.RoundRobin.Policy.{Dispatches, nobody, given, passed}

-- How many processes stand before `j`.
abbrev pub ahead : ℕ → List ℕ → ℕ
ahead j [] = 0
ahead j (x ∷ xs) = if x == j then 0 else suc (ahead j xs)

pub ahead-snoc : (j i : ℕ) (q : List ℕ) → contains j q ≡ true → ahead j (q ++ i ∷ []) ≡ ahead j q
ahead-snoc j i [] e = cc
ahead-snoc j i (x ∷ q) e = ground (arith, ahead-snoc j i q)

-- A process of the queue that is not the one which does not occur in it.
contains-other : (i j : ℕ) (q : List ℕ) → Absent i q → contains j q ≡ true → i ≢ j
contains-other i j q ab e h = let missing = contains-Absent i q ab in cc (missing, h, e)

Dispatches-contains :
    {refuses accepts : ℕ → Type 0} (j : ℕ) {q q' : List ℕ} {r : Option ℕ}
    → Dispatches refuses accepts q q' r
    → contains j q' ≡ true
    → contains j q ≡ true
Dispatches-contains j nobody e = e
Dispatches-contains j (given i q taken) e = ground (arith, e)
Dispatches-contains j (passed i lost d) e =
    let rest = Dispatches-contains j d e in ground (arith, rest)

-- Whoever still waits has at least one process less before it.
pub Dispatches-forward :
    {refuses accepts : ℕ → Type 0} (j : ℕ) {q q' : List ℕ} {r : Option ℕ}
    → Dispatches refuses accepts q q' r
    → Distinct q
    → contains j q' ≡ true
    → ahead j q' < ahead j q
Dispatches-forward j nobody d e = cc
Dispatches-forward j (given i q taken) (ab, d) e =
    let other = contains-other i j q ab e in rw (eq-false i j other) (omega arith)
Dispatches-forward j (passed {q = q} i lost rest) (ab, d) e =
    let other = contains-other i j q ab (Dispatches-contains j rest e) in
    rw (eq-false i j other) (omega (arith, Dispatches-forward j rest d e))
