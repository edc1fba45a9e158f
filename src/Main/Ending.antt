-- ===== src/Main/Ending.antt =====
-- The two ways in which the user ends the program of src/main.c.
use minios_lab_edwin_jose.Base.{ℕ, List}
use minios_lab_edwin_jose.Machine.{Machine}
use minios_lab_edwin_jose.Platform.{Platform}
use minios_lab_edwin_jose.CommandLine.{Command}
use minios_lab_edwin_jose.Scheduler.State.{System}
use minios_lab_edwin_jose.Scheduler.Start.Killing.{LogsKills}
use minios_lab_edwin_jose.Shell.{perform}
use minios_lab_edwin_jose.Shell.Ending.{Cleared, stop-Cleared, exit-Cleared}
use minios_lab_edwin_jose.Main.{sigint_handler}

-- Whether the user types `exit` or Ctrl-C, every process of the table that is not TERMINATED is sent one
-- SIGKILL, in the order of the table, no other process is, and all are TERMINATED.
pub endings-Cleared :
    {W D : Type 0} (m : Machine W D) (t : Platform) (killed : W → List ℕ)
    → LogsKills m killed
    → (s : System W D)
    → Cleared killed s (perform m t Command.exit s).1 × Cleared killed s (sigint_handler m s)
unfolding sigint_handler
endings-Cleared m t killed law s = (exit-Cleared m killed law t s, stop-Cleared m killed law s)
