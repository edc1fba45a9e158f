-- ===== src/Shell/Totals.antt =====
-- The sums of `stats` in src/shell.c.
use minios_lab_edwin_jose.Base.{ℕ, zero, suc, ◌+◌, ◌≡◌, refl, if◌then◌else◌, arith}
use minios_lab_edwin_jose.Machine.{Machine}
use minios_lab_edwin_jose.Pcb.{Pcb, is_terminated}
use minios_lab_edwin_jose.Scheduler.State.{System}
use minios_lab_edwin_jose.Shell.{
  Stats, no_stats, add_stats, sum_stats, cmd_stats, block_alarm, unblock_alarm,
}

-- How many of the entries from `i` to `i + k` are TERMINATED, and their context switches.
abbrev pub dead_count : {D : Type 0} → (k i : ℕ) → (ℕ → Pcb D) → ℕ
dead_count zero i table = 0
dead_count (suc k) i table =
    (if is_terminated (table i).state then 1 else 0) + dead_count k (i + 1) table

abbrev pub switch_count : {D : Type 0} → (k i : ℕ) → (ℕ → Pcb D) → ℕ
switch_count zero i table = 0
switch_count (suc k) i table = (table i).context_switches + switch_count k (i + 1) table

module _ {W D : Type 0} (m : Machine W D) where
  sum_stats-counts :
      (k i : ℕ) (table : ℕ → Pcb D) (sums : Stats D)
      → let out = sum_stats m k i table sums in
        (out.active + out.terminated ≡ sums.active + sums.terminated + k)
        × (out.terminated ≡ sums.terminated + dead_count k i table)
        × (out.total_switches ≡ sums.total_switches + switch_count k i table)
  unfolding sum_stats add_stats
  sum_stats-counts zero i table sums = (omega arith, omega arith, omega arith)
  sum_stats-counts (suc k) i table sums =
      let sums1 = add_stats m (table i) sums in
      let (all, dead, switches) = sum_stats-counts k (i + 1) table sums1 in
      let (all1, dead1, switches1) = one (table i) in
      (omega (arith, all, all1), omega (arith, dead, dead1), omega (arith, switches, switches1))
    where
      one :
          (p : Pcb D)
          → let out = add_stats m p sums in
            (out.active + out.terminated ≡ sums.active + sums.terminated + 1)
            × (out.terminated ≡ sums.terminated + (if is_terminated p.state then 1 else 0))
            × (out.total_switches ≡ sums.total_switches + p.context_switches)
      one p = ground arith

  -- The processes that `stats` counts as active and as terminated make up the table, the terminated ones
  -- are exactly those that are TERMINATED, the context switches are the sum over the table, and nothing
  -- but the signal mask changes: SIGALRM is unblocked.
  pub cmd_stats-counts :
      (s : System W D)
      → let (sums, averages, s') = cmd_stats m s in
        (sums.active + sums.terminated ≡ s.process_count)
        × (sums.terminated ≡ dead_count s.process_count 0 s.process_table)
        × (sums.total_switches ≡ switch_count s.process_count 0 s.process_table)
        × (s' ≡ unblock_alarm s)
  unfolding cmd_stats block_alarm unblock_alarm no_stats
  cmd_stats-counts s =
      let (all, dead, switches) = sum_stats-counts s.process_count 0 s.process_table (no_stats m) in
      (omega (arith, all), omega (arith, dead), omega (arith, switches), refl)
