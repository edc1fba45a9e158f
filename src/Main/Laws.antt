-- ===== src/Main/Laws.antt =====
-- The state in which the shell of src/main.c starts.
use minios_lab_edwin_jose.Base.{false, ◌≡◌, ◌≢◌, refl, arith}
use minios_lab_edwin_jose.Machine.{Machine}
use minios_lab_edwin_jose.Pcb
use minios_lab_edwin_jose.Pcb.{ProcState, running, new}
use minios_lab_edwin_jose.Pcb.Laws.{blank-state}
use minios_lab_edwin_jose.ReadyQueue.Contents.{init-empty}
use minios_lab_edwin_jose.Scheduler.State
use minios_lab_edwin_jose.Scheduler.State.{System}
use minios_lab_edwin_jose.Scheduler.View.{WellFormed}
use minios_lab_edwin_jose.Main.{loaded, boot}

module _ {W D : Type 0} (m : Machine W D) where
  -- The program starts with a well-formed system: no process, an empty queue, nothing active.
  pub boot-WellFormed : (w : W) → WellFormed (boot m (loaded m w))
  unfolding boot loaded State.init
  boot-WellFormed w =
      let (ring, empty) = init-empty (record { slots = λ i. 0; front = 0; rear = 0; count = 0 }) in
      (
        ring,
        rw empty (record {
          queue = record { fits = omega arith; waiting = tt; distinct = tt };
          current = λ j e. cc;
          only = λ j e. absurd (idle e);
          active = refl;
        }),
      )
    where
      idle : (Pcb.blank m).state ≢ running
      idle e = cc (blank-state m)

  pub boot-mask :
      (w : W) → (boot m (loaded m w)).mask ≡ record { alrm_blocked = false; chld_blocked = false }
  unfolding boot loaded State.init
  boot-mask w = refl

  pub boot-process_count : (w : W) → (boot m (loaded m w)).process_count ≡ 0
  unfolding boot loaded State.init
  boot-process_count w = refl
