-- ===== src/Scheduler/Lasting.antt =====
-- What no handler of src/scheduler.c takes back: how many processes the table has, who they are, and
-- which of them are TERMINATED.
use minios_lab_edwin_jose.Base.{ℕ, ◌≡◌, refl, subst, ◌∙◌, eq-cases, eq-true, eq-false, inl, inr}
use minios_lab_edwin_jose.Pcb.{Pcb, terminated}
use minios_lab_edwin_jose.Scheduler.State.{System, put}

-- The second entry is the same process as the first, and TERMINATED if that was.
abbrev pub SameProcess : {D : Type 0} → Pcb D → Pcb D → Type 0
SameProcess p q =
    (q.pid ≡ p.pid) × (q.name ≡ p.name) × (p.state ≡ terminated → q.state ≡ terminated)

abbrev pub Lasting : {W D : Type 0} → System W D → System W D → Type 0
Lasting s0 s =
    (s.process_count ≡ s0.process_count)
    × ((j : ℕ) → SameProcess (s0.process_table j) (s.process_table j))

pub SameProcess-trans :
    {D : Type 0} (p q r : Pcb D) → SameProcess p q → SameProcess q r → SameProcess p r
SameProcess-trans p q r (a, b, c) (d, e, f) = (d ∙ a, e ∙ b, λ g. f (c g))

module _ {W D : Type 0} where
  pub Lasting-refl : (s : System W D) → Lasting s s
  Lasting-refl s = (refl, λ j. (refl, refl, λ e. e))

  pub Lasting-trans : (s0 s1 s2 : System W D) → Lasting s0 s1 → Lasting s1 s2 → Lasting s0 s2
  Lasting-trans s0 s1 s2 (n, f) (k, g) = (
    k ∙ n,
    λ j.
        SameProcess-trans (s0.process_table j) (s1.process_table j) (s2.process_table j) (f j)
          (g j),
  )

  -- A write of an entry for the same process.
  pub Lasting-put :
      (s0 : System W D) (i : ℕ) (p : Pcb D) (s : System W D)
      → SameProcess (s.process_table i) p
      → Lasting s0 s
      → Lasting s0 (put i p s)
  Lasting-put s0 i p s same (n, f) = (
    n,
    λ j. elim (eq-cases i j) [
      | inl e ↦ rw (eq-true i j e) (
          SameProcess-trans (s0.process_table j) (s.process_table j) p (f j)
            (subst (λ x. SameProcess (s.process_table x) p) e same))
      | inr ne ↦ rw (eq-false i j ne) (f j)
    ],
  )
