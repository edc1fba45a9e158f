-- ===== src/Pcb/Laws.antt =====
-- What `pcb_init` leaves in a block: the name as it was given, cut to what fits, and no history.
use minios_lab_edwin_jose.Base.{
  ℕ, zero, suc, ◌-◌, ◌≡◌, ◌≢◌, refl, ap, ◌∙◌, false, [], ◌∷◌, ◌++◌, take, length, length-append,
  All, arith,
}
use minios_lab_edwin_jose.Base.Int.{pos}
use minios_lab_edwin_jose.Machine.{Machine, CString}
use minios_lab_edwin_jose.Pcb.{blank, new, strncpy, c_string, init, max_name_len}

length-strncpy : (n : ℕ) (src : CString) → length (strncpy n src) ≡ n
unfolding strncpy
length-strncpy zero src = refl
length-strncpy (suc n) [] = ap suc (length-strncpy n [])
length-strncpy (suc n) (c ∷ src) = ap suc (length-strncpy n src)

c_string-strncpy :
    (n : ℕ) (src : CString) → All (λ c. c ≢ 0) src → c_string (strncpy n src ++ 0 ∷ []) ≡ take n src
unfolding strncpy c_string
c_string-strncpy zero src h = refl
c_string-strncpy (suc n) [] h = refl
c_string-strncpy (suc n) (c ∷ src) h = ground (arith, c_string-strncpy n src h.1)

module _ {W D : Type 0} (m : Machine W D) (pid : ℕ) (name : CString) (w : W) where
  -- The name fills its array exactly, ends within it, and reads back as the first 63 bytes of the one
  -- that was given.
  pub init-name :
      All (λ c. c ≢ 0) name
      → let p = (init m pid name w).0 in
        (length p.name ≡ max_name_len) × (c_string p.name ≡ take (max_name_len - 1) name)
  unfolding init
  init-name h = (
    length-append (strncpy 63 name) (0 ∷ []) ∙ omega (arith, length-strncpy 63 name),
    c_string-strncpy 63 name h,
  )

  -- A new process has its pid, is NEW, and has used nothing.
  pub init-fresh :
      let p = (init m pid name w).0 in
      (p.pid ≡ pid)
      × (p.state ≡ new)
      × (p.regs_valid ≡ false)
      × (p.context_switches ≡ 0)
      × (p.cpu_time_ms ≡ m.of_int (pos 0))
      × (p.wait_time_ms ≡ m.of_int (pos 0))
  unfolding init
  init-fresh = (refl, refl, refl, refl, refl, refl)

  pub init-world : (init m pid name w).1 ≡ (m.clock_gettime w).1
  unfolding init
  init-world = refl

pub blank-state : {W D : Type 0} (m : Machine W D) → (blank m).state ≡ new
unfolding blank
blank-state m = refl
