-- ===== src/Programs/Memory.antt =====
-- programs/memory_hog.c: memory is asked for in chunks of 256 KB until there is none.
use minios_lab_edwin_jose.Base.{
  ℕ, zero, suc, ◌+◌, ◌*◌, ◌-◌, ◌/◌, ◌%◌, ◌≤◌, ◌≢◌, ◌≡◌, refl, Bool, List, [], ◌∷◌, ◌==◌,
  if◌then◌else◌, arith, Bool-cases, eq-cases, eq-true, eq-false, inl, inr,
}

-- The call of the C library: whether `malloc` of so many bytes returned memory.
pub record Allocator (W : Type 0) : Type 0 where
  pub malloc : ℕ → W → Bool × W
  pub usleep : ℕ → W → W

abbrev pub chunk_kb : ℕ
chunk_kb = 256

-- For a number of megabytes that is not negative and whose kilobytes an int holds.
pub chunks : ℕ → ℕ
chunks total_mb = (total_mb * 1024) / chunk_kb

module _ {W : Type 0} (a : Allocator W) where
  -- The loop from chunk `i` on: the amounts that it reports, and what it has got in the end.
  pub hog : (rounds i allocated : ℕ) → W → List ℕ × ℕ
  hog zero i allocated w = ([], allocated)
  hog (suc k) i allocated w =
      let (got, w1) = a.malloc (chunk_kb * 1024) w in
      let now = allocated + chunk_kb in
      let (reports, final) = hog k (i + 1) now (a.usleep 50_000 w1) in
      if got
      then (if (i + 1) % 4 == 0 then (now ∷ reports, final) else (reports, final))
      else ([], allocated)

  pub run : ℕ → W → List ℕ × ℕ
  run total_mb w = hog (chunks total_mb) 0 0 w

  -- How many of the next chunks are granted, up to the first that is not.
  pub granted : (rounds : ℕ) → W → ℕ
  granted zero w = 0
  granted (suc k) w =
      let more = granted k (a.usleep 50_000 (a.malloc (chunk_kb * 1024) w).1) in
      if (a.malloc (chunk_kb * 1024) w).0 then suc more else 0

-- n, n + 1024, ..., so many of them.
abbrev pub megabytes : (rounds n : ℕ) → List ℕ
megabytes zero n = []
megabytes (suc k) n = n ∷ megabytes k (n + 1024)

-- Chunk `i` fills a megabyte, and its report is the first of those that are left.
megabytes-full :
    (i m al : ℕ)
    → al ≡ i * 256
    → (i + 1) % 4 ≡ 0
    → ◌≡◌ {A = List ℕ × ℕ}
        (
          (al + 256) ∷ megabytes ((i + 1 + m) / 4 - (i + 1) / 4) (((i + 1) / 4 + 1) * 1024),
          al + 256 + m * 256,
        )
        (megabytes ((i + suc m) / 4 - i / 4) ((i / 4 + 1) * 1024), al + suc m * 256)
megabytes-full i m al at h =
    let left : (i + suc m) / 4 - i / 4 ≡ suc ((i + 1 + m) / 4 - (i + 1) / 4) = omega arith in
    let first : (i / 4 + 1) * 1024 ≡ al + 256 = omega arith in
    let next : ((i + 1) / 4 + 1) * 1024 ≡ al + 256 + 1024 = omega arith in
    let same : al + suc m * 256 ≡ al + 256 + m * 256 = omega arith in
    rw (left, first, next, same) refl

-- Chunk `i` fills no megabyte.
megabytes-part :
    (i m al : ℕ)
    → (i + 1) % 4 ≢ 0
    → ◌≡◌ {A = List ℕ × ℕ}
        (megabytes ((i + 1 + m) / 4 - (i + 1) / 4) (((i + 1) / 4 + 1) * 1024), al + 256 + m * 256)
        (megabytes ((i + suc m) / 4 - i / 4) ((i / 4 + 1) * 1024), al + suc m * 256)
megabytes-part i m al h =
    let below : (i + 1) / 4 ≡ i / 4 = omega arith in
    let left : i + suc m ≡ i + 1 + m = omega arith in
    let same : al + suc m * 256 ≡ al + 256 + m * 256 = omega arith in rw (left, below, same) refl

module _ {W : Type 0} (a : Allocator W) where
  granted-le : (k : ℕ) (w : W) → granted a k w ≤ k
  unfolding granted
  granted-le zero w = omega arith
  granted-le (suc k) w =
      let w1 = a.usleep 50_000 (a.malloc (chunk_kb * 1024) w).1 in
      elim (Bool-cases (a.malloc (chunk_kb * 1024) w).0) [
        | inl e ↦ rw e (omega (arith, granted-le k w1))
        | inr e ↦ rw e (omega arith)
      ]

  -- The reports up to the chunk that the allocator refuses: one for each full megabyte.
  hog-granted :
      (k i al : ℕ) (w : W)
      → al ≡ i * 256
      → let n = granted a k w in
        hog a k i al w ≡ (megabytes ((i + n) / 4 - i / 4) ((i / 4 + 1) * 1024), al + n * 256)
  unfolding hog granted
  hog-granted zero i al w at =
      let none : (i + 0) / 4 - i / 4 ≡ 0 = omega arith in
      let same : al + 0 * 256 ≡ al = omega arith in rw (none, same) refl
  hog-granted (suc k) i al w at =
      let w1 = a.usleep 50_000 (a.malloc (chunk_kb * 1024) w).1 in
      let m = granted a k w1 in
      let rest = hog-granted k (i + 1) (al + 256) w1 (omega arith) in
      elim (Bool-cases (a.malloc (chunk_kb * 1024) w).0) [
        | inl e ↦
            rw (e, rest)
              (elim (eq-cases ((i + 1) % 4) 0) [
                | inl t ↦ rw (eq-true ((i + 1) % 4) 0 t) (megabytes-full i m al at t)
                | inr t ↦ rw (eq-false ((i + 1) % 4) 0 t) (megabytes-part i m al t)
              ])
        | inr e ↦
            let none : (i + 0) / 4 - i / 4 ≡ 0 = omega arith in
            let same : al + 0 * 256 ≡ al = omega arith in rw (e, none, same) refl
      ]

  -- The program reports 1024, 2048, ... KB, one report for each megabyte that it has filled, up to
  -- the first chunk that the allocator refuses, and its total is the KB of the chunks it was given, never
  -- more than was asked for.
  run-granted :
      (total_mb : ℕ) (w : W)
      → let n = granted a (chunks total_mb) w in
        (run a total_mb w ≡ (megabytes (n / 4) 1024, n * 256)) × (n * 256 ≤ total_mb * 1024)
  unfolding run chunks
  run-granted total_mb w =
      let n = granted a (chunks total_mb) w in
      let full : n / 4 ≡ (0 + n) / 4 - 0 = omega arith in
      let bound : n * 256 ≤ total_mb * 1024 = omega (arith, granted-le (chunks total_mb) w) in
      let total : n * 256 ≡ 0 + n * 256 = omega arith in
      (rw (full, total) (hog-granted (chunks total_mb) 0 0 w refl), bound)
