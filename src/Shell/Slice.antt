-- ===== src/Shell/Slice.antt =====
-- `slice` of src/shell.c.
use minios_lab_edwin_jose.Base.{
  ℕ, ◌≤◌, ◌≡◌, refl, ◌∙◌, false, ◌||◌, Option, none, some, if-rule, arith,
}
use minios_lab_edwin_jose.Base.Int.{ℤ, pos, negsuc, ltb_ℤ}
use minios_lab_edwin_jose.Machine.{Machine, CString}
use minios_lab_edwin_jose.CommandLine.{is_blank}
use minios_lab_edwin_jose.Scheduler.State.{System, is_running, in_world}
use minios_lab_edwin_jose.Timer
use minios_lab_edwin_jose.Shell.{cmd_slice, change_slice}

-- The slice is between 50 and 5000 milliseconds.
abbrev pub InLimits : {W D : Type 0} → System W D → Type 0
InLimits s = (ms : ℕ) × (s.timer.current_slice_ms ≡ pos ms) × (50 ≤ ms) × (ms ≤ 5000)

limits :
    (ms : ℤ)
    → (ltb_ℤ ms (pos 50) || ltb_ℤ (pos 5000) ms) ≡ false
    → (n : ℕ) × (ms ≡ pos n) × (50 ≤ n) × (n ≤ 5000)
limits (pos n) e = (n, refl, ground arith, ground arith)
limits (negsuc n) e = absurd (ground arith)

module _ {W D : Type 0} (m : Machine W D) where
  slice-change_slice : (ms : ℤ) (s : System W D) → (change_slice m ms s).timer.current_slice_ms ≡ ms
  unfolding change_slice Timer.set_slice
  slice-change_slice ms s =
      let s1 = record s { timer = Timer.set_slice ms s.timer } in
      if-rule (λ (x : System W D). x.timer.current_slice_ms ≡ ms) (is_running s1)
        (in_world s1 (Timer.start m s1.timer s1.world)) s1 (λ _. set_back) (λ _. set_back)
    where
      set_back : (Timer.set_slice ms s.timer).current_slice_ms ≡ ms
      set_back = refl

  -- Whatever the user types, the slice stays between 50 and 5000 milliseconds if it was.
  pub cmd_slice-InLimits :
      (arg : Option CString) (s : System W D) → InLimits s → InLimits (cmd_slice m arg s)
  unfolding cmd_slice
  cmd_slice-InLimits none s h = h
  cmd_slice-InLimits (some arg) s h =
      let ms = m.atoi arg in
      if-rule InLimits (is_blank (some arg)) s _ (λ _. h)
        (λ _.
          if-rule InLimits (ltb_ℤ ms (pos 50) || ltb_ℤ (pos 5000) ms) s (change_slice m ms s)
            (λ _. h)
            (λ e.
              let (n, same, low, high) = limits ms e in
              (n, slice-change_slice ms s ∙ same, low, high)))
