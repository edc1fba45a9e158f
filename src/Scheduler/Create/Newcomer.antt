-- ===== src/Scheduler/Create/Newcomer.antt =====
-- The process that `scheduler_create_process` enters in the table is not awake, nor has another been woken.
use minios_lab_edwin_jose.Base.{
  ℕ, ◌<◌, ◌≡◌, ◌≢◌, refl, sym, ap, ◌∙◌, Bool, Option, none, some, leb, arith, Bool-cases, inl, inr,
  eq-cases,
}
use minios_lab_edwin_jose.Machine.{Machine, CString}
use minios_lab_edwin_jose.Fifo.{max_processes}
use minios_lab_edwin_jose.Platform.{Platform}
use minios_lab_edwin_jose.Scheduler.State.{System, in_world}
use minios_lab_edwin_jose.Scheduler.View.{WellFormed}
use minios_lab_edwin_jose.Scheduler.Exclusive.{Stops, Quiet, IsNew, Lull}
use minios_lab_edwin_jose.Scheduler.Create.{create_process, forked}
use minios_lab_edwin_jose.Scheduler.Create.Laws.{Created, create_process-Created}
use minios_lab_edwin_jose.Scheduler.Create.Exclusive.{Ends, forked-Ends}

module _ {W D : Type 0} (m : Machine W D) (t : Platform) (awake : W → ℕ → Bool) (fresh : W → ℕ)
    (law : Stops m awake fresh) where
  fork-Lull : (w : W) → IsNew m fresh w → Lull awake fresh w (m.fork w).1
  fork-Lull w new = (
    λ p lt e. law.fork_calm w p (λ given. absurd (omega (arith, lt, new p given))) e,
    law.fork_more w,
  )

  forked-Lull :
      (path : CString) (s : System W D) (o : Option ℕ)
      → IsNew m fresh s.world
      → (m.fork s.world).0 ≡ o
      → Ends m t awake fresh law s.world (forked m t path o (in_world s (m.fork s.world).1))
  unfolding forked
  forked-Lull path s none new e = fork-Lull s.world new
  forked-Lull path s (some pid) new e =
      forked-Ends m t awake fresh law s.world path pid (in_world s (m.fork s.world).1)
        (fork-Lull s.world new, new pid e, law.fork_given s.world pid e)

  create_process-Ends :
      (path : CString) (s : System W D)
      → IsNew m fresh s.world
      → Ends m t awake fresh law s.world (create_process m t path s)
  unfolding create_process
  create_process-Ends path s new = elim (Bool-cases (leb max_processes s.process_count)) [
    | inl full ↦ rw full ((λ p lt e. e), omega arith)
    | inr space ↦ rw space (forked-Lull path s (m.fork s.world).0 new refl)
  ]

  -- The entries of a table that has at most one more, which is behind the others.
  Created-Quiet :
      (s0 : System W D) (r : Option ℕ) (s : System W D)
      → Created s0 r s
      → Ends m t awake fresh law s0.world (r, s)
      → Quiet awake fresh s0
      → Quiet awake fresh s
  Created-Quiet s0 none s (h, n, q, same, mask) (still, le) (given, apart, rest) = (
    λ i lt. rw (old i lt) (omega (arith, given i (within i lt), le)),
    λ i j lt lt' e.
        apart i j (within i lt) (within j lt')
          (ap (λ p. p.pid) (sym (old i lt)) ∙ (e ∙ ap (λ p. p.pid) (old j lt'))),
    λ i lt ne. rw (old i lt) (
        still (s0.process_table i).pid (given i (within i lt))
          (rest i (within i lt) (λ e. ne (ap (λ p. p.state) (old i lt) ∙ e)))),
  )
    where
      within : (i : ℕ) → i < s.process_count → i < s0.process_count
      within i lt = omega (arith, n, lt)

      old : (i : ℕ) → i < s.process_count → s.process_table i ≡ s0.process_table i
      old i lt = same i (λ e. absurd (omega (arith, e, n, lt)))
  Created-Quiet s0 (some idx) s (h, at_end, n, q, st, same, mask)
        (((still, le), since, known), quiet) (given, apart, rest) =
      (
        λ i lt. elim (eq-cases i idx) [
          | inl e ↦ rw e known
          | inr ne ↦ rw (same i ne) (omega (arith, given i (within i lt ne), le))
        ],
        λ i j lt lt' e. elim (eq-cases i idx) [
          | inl a ↦ elim (eq-cases j idx) [
            | inl b ↦ a ∙ sym b
            | inr b ↦ absurd (newer j lt' b (ap (λ x. (s.process_table x).pid) (sym a) ∙ e))
          ]
          | inr a ↦ elim (eq-cases j idx) [
            | inl b ↦ absurd (newer i lt a (ap (λ x. (s.process_table x).pid) (sym b) ∙ sym e))
            | inr b ↦
                apart i j (within i lt a) (within j lt' b)
                  (ap (λ p. p.pid) (sym (same i a)) ∙ (e ∙ ap (λ p. p.pid) (same j b)))
          ]
        ],
        λ i lt ne. elim (eq-cases i idx) [
          | inl e ↦ rw e quiet
          | inr a ↦ rw (same i a) (
              still (s0.process_table i).pid (given i (within i lt a))
                (rest i (within i lt a) (λ e. ne (ap (λ p. p.state) (same i a) ∙ e))))
        ],
      )
    where
      within : (i : ℕ) → i < s.process_count → i ≢ idx → i < s0.process_count
      within i lt ne = elim (eq-cases i s0.process_count) [
        | inl e ↦ absurd (ne (e ∙ sym at_end))
        | inr ne' ↦ omega (arith, n, lt, ne')
      ]

      -- The pid of the new one is not that of another.
      newer :
          (j : ℕ)
          → j < s.process_count
          → j ≢ idx
          → (s.process_table idx).pid ≢ (s.process_table j).pid
      newer j lt ne e =
          absurd (omega (arith, since, given j (within j lt ne), e ∙ ap (λ p. p.pid) (same j ne)))

  pub create_process-Quiet :
      (path : CString) (s : System W D)
      → IsNew m fresh s.world
      → WellFormed s
      → Quiet awake fresh s
      → Quiet awake fresh (create_process m t path s).1
  create_process-Quiet path s new h =
      let (r, s') = create_process m t path s in
      Created-Quiet s r s' (create_process-Created m t path s h) (create_process-Ends path s new)
