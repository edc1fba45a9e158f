-- ===== src/Programs/Diamond.antt =====
-- programs/artista_ascii.c: the lines of the diamond, for a size that is not negative.
use minios_lab_edwin_jose.Base.{
  ℕ, zero, suc, ◌+◌, ◌-◌, ◌*◌, ◌/◌, ◌≤◌, ◌≡◌, refl, ap, List, [], ◌∷◌, ◌++◌, leb, if◌then◌else◌,
  arith, Bool-cases, inl, inr, length, length-append, Option,
}
use minios_lab_edwin_jose.Base.Int.{ℤ, pos, pos_part}
use minios_lab_edwin_jose.Base.Text.{codes}
use minios_lab_edwin_jose.Machine.{CString, text, dec}
use minios_lab_edwin_jose.Programs.Act.{Act, sleep, tagged, given}

-- (size + 1) / 2
abbrev pub half : ℕ → ℕ
half size = (size + 1) / 2

pub width : (size i : ℕ) → ℕ
width size i = if leb i (half size) then i else size + 1 - i

-- The loops that print one character `n` times.
abbrev pub times : ℕ → ℕ → List ℕ
times c zero = []
times c (suc n) = c ∷ times c n

-- Line `i` behind the name of the program: blanks (32), then stars (42).
pub line : (size i : ℕ) → List ℕ
line size i = let w = width size i in times 32 (half size - w) ++ times 42 (2 * w - 1)

-- The loop over the lines i, ..., i + rounds - 1.
pub lines : (rounds i size : ℕ) → List (List ℕ)
lines zero i size = []
lines (suc k) i size = line size i ∷ lines k (i + 1) size

pub draw : ℕ → List (List ℕ)
draw size = lines size 1 size

module _ {D : Type 0} where
  pub paced : ℕ → List (List ℕ) → List (Act D)
  paced pid [] = []
  paced pid (picture ∷ rest) =
      tagged (codes "[artista:") pid (text picture ∷ text (codes "\n") ∷ [])
      ∷ sleep (pos 200_000)
      ∷ paced pid rest

  -- The lines, each followed by a pause, which stand between two messages; none for a size that is negative.
  pub artista : (CString → ℤ) → ℕ → Option CString → List (Act D)
  artista atoi pid arg =
      let size = given atoi (pos 15) arg in
      let name = codes "[artista:" in
      tagged name pid
          (text (codes "Dibujando patron de ") ∷ dec size ∷ text (codes " lineas\n") ∷ [])
        ∷ paced pid (draw (pos_part size))
      ++ tagged name pid (text (codes "Terminado!\n") ∷ []) ∷ []

length-times : (c n : ℕ) → length (times c n) ≡ n
length-times c zero = refl
length-times c (suc n) = omega (arith, length-times c n)

width-range : (size i : ℕ) → 1 ≤ i → i ≤ size → (1 ≤ width size i) × (width size i ≤ half size)
unfolding width
width-range size i lo hi = elim (Bool-cases (leb i (half size))) [
  | inl e ↦ rw e (omega arith, ground arith)
  | inr e ↦ rw e (omega arith, upper (ground arith))
]
  where
    upper : half size + 1 ≤ i → size + 1 - i ≤ half size
    upper h = omega arith

width-mirror : (size i : ℕ) → 1 ≤ i → i ≤ size → width size (size + 1 - i) ≡ width size i
unfolding width
width-mirror size i lo hi = ground arith

-- The picture is its own mirror image from top to bottom; in each of its lines the blanks and half the stars
-- make up half the width, so that the stars stand in the middle, there is a star, and the line is not longer
-- than the picture has lines.
line-mirror :
    (size i : ℕ)
    → 1 ≤ i
    → i ≤ size
    → (line size (size + 1 - i) ≡ line size i)
      × (w : ℕ) × (1 ≤ w)
      × (line size i ≡ times 32 (half size - w) ++ times 42 (2 * w - 1))
      × (half size - w + w ≡ half size)
      × (length (line size i) ≤ size)
unfolding line
line-mirror size i lo hi =
    let (small, large) = width-range size i lo hi in
    (
      ap (λ w. times 32 (half size - w) ++ times 42 (2 * w - 1)) (width-mirror size i lo hi),
      width size i,
      small,
      refl,
      omega (arith, small, large),
      omega (
        arith,
        length-append (times 32 (half size - width size i)) (times 42 (2 * width size i - 1)),
        length-times 32 (half size - width size i),
        length-times 42 (2 * width size i - 1),
        small,
        large,
      ),
    )
