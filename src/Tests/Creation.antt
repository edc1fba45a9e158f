-- ===== src/Tests/Creation.antt =====
-- The creation of a process step by step, and with a signal inside it, at concrete inputs.
use minios_lab_edwin_jose.Base.{ℕ, ◌+◌, ◌≡◌, some, [], ◌∷◌, arith}
use minios_lab_edwin_jose.Machine.{CString}
use minios_lab_edwin_jose.Platform.{linux}
use minios_lab_edwin_jose.Scheduler.State.{System}
use minios_lab_edwin_jose.Scheduler.Create.Stages.{Stage, entering, step}
use minios_lab_edwin_jose.Scheduler.Sigchld.{sigchld}
use minios_lab_edwin_jose.Scheduler.Sigchld.Total.{sigchld-total}
use minios_lab_edwin_jose.Session.Interrupted.{here, goes_on, signalled, Base, Sized, Course-Sized}
use minios_lab_edwin_jose.Tests.Data.{obedient, obedient-CountsChildren, two, two-WellFormed}

abbrev path : CString
path = 47 ∷ 97 ∷ []

-- After the first step.
abbrev forked_state : Stage × System ℕ ℕ
forked_state = step obedient linux (entering path) two

-- Then children end, for which there is fuel.
handled :
    (s' : System ℕ ℕ) × (sigchld obedient linux (forked_state.1.world + 1) forked_state.1 ≡ some s')
handled =
    let (s', w, e, drained, last, mask) =
      sigchld-total obedient linux (λ w. w) obedient-CountsChildren (forked_state.1.world + 1)
        forked_state.1 (omega arith) in
    (s', e)

abbrev later : Stage × System ℕ ℕ
later = step obedient linux forked_state.0 handled.0

Course-Sized_example : Base two later.1 × Sized two.process_count later.0 later.1.process_count
Course-Sized_example =
    Course-Sized obedient linux path two later.0 later.1 two-WellFormed
      (goes_on (signalled (forked_state.1.world + 1) (goes_on here) handled.1))
