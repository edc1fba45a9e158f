-- ===== src/Programs/Bitacora.antt =====
-- programs/bitacora.c: a log of fifty entries at intervals.
use minios_lab_edwin_jose.Base.{
  ℕ, zero, suc, ◌+◌, Bool, Option, List, [], ◌∷◌, ◌++◌, if◌then◌else◌, take,
}
use minios_lab_edwin_jose.Base.Int.{ℤ, pos, times}
use minios_lab_edwin_jose.Base.Text.{codes}
use minios_lab_edwin_jose.Machine.{CString, Piece, text, dec, str}
use minios_lab_edwin_jose.Programs.Act.{Act, log, sleep, tagged, given}

abbrev pub entry_count : ℕ
entry_count = 50

module _ {D : Type 0} (format : List (Piece D) → CString) (stamp : ℕ → CString) where
  -- The name of the file, in an array of 64 bytes.
  pub filename : ℕ → CString
  filename pid =
      take 63 (format (text (codes "bitacora_") ∷ dec (pos pid) ∷ text (codes ".log") ∷ []))

  -- The loop over the entries from `entry` on; `stamp entry` is the time of day at which it is written. The dash
  -- is three bytes.
  pub entries : (pid : ℕ) → ℤ → (rounds entry : ℕ) → List (Act D)
  entries pid interval_ms zero entry = []
  entries pid interval_ms (suc k) entry =
      log (
        text (codes "[")
        ∷ str (stamp entry)
        ∷ text (codes "] Entrada #")
        ∷ dec (pos entry)
        ∷ text (32 ∷ 226 ∷ 128 ∷ 148 ∷ codes " PID ")
        ∷ dec (pos pid)
        ∷ text (codes "\n")
        ∷ [])
      ∷ tagged (codes "[bitacora:") pid
          (text (codes "Entrada #") ∷ dec (pos entry) ∷ text (codes " escrita\n") ∷ [])
      ∷ sleep (times interval_ms 1000)
      ∷ entries pid interval_ms k (entry + 1)

  -- The exit status, and what is done before it; `opened` tells whether `fopen` succeeds.
  pub bitacora : (CString → ℤ) → ℕ → Option CString → Bool → ℕ × List (Act D)
  bitacora atoi pid arg opened =
      let interval_ms = given atoi (pos 500) arg in
      let name = str (filename pid) in
      if opened
      then (
        0,
        tagged (codes "[bitacora:") pid (
                text (codes "Escribiendo a ")
                ∷ name
                ∷ text (codes " cada ")
                ∷ dec interval_ms
                ∷ text (codes " ms\n")
                ∷ [])
              ∷ entries pid interval_ms entry_count 1
            ++ tagged (codes "[bitacora:") pid
                (text (codes "Terminado! Log en ") ∷ name ∷ text (codes "\n") ∷ [])
              ∷ [],
      )
      else (1, [])
