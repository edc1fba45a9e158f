-- ===== src/Programs/BusyLoop.antt =====
-- programs/busy_loop.c: bursts of arithmetic on `unsigned long` until the time is up.
pub mod Laws
use minios_lab_edwin_jose.Base.{
  ℕ, zero, suc, ◌+◌, ◌*◌, ◌/◌, ◌%◌, ◌^◌, Bool, true, false, Option, none, some, if◌then◌else◌,
}
use minios_lab_edwin_jose.Base.Int.{pos, ◌-ℤ◌}
use minios_lab_edwin_jose.Machine.{Machine, Timespec}
use Prim.Native.Nat.{bit_xor}

pub record Spin : Type 0 where
  pub sum : ℕ
  pub total_iters : ℕ

-- CHECK_EVERY
pub check_every : ℕ
check_every = 2 ^ 22

-- One round of the inner loop; numbers wrap at 64 bits.
pub mix : Spin → Spin
mix s =
    let added = (s.sum + (s.total_iters * 7 + 3)) % 2 ^ 64 in
    let shifted = bit_xor added ((added * 2 ^ 13) % 2 ^ 64) in
    record { sum = bit_xor shifted (shifted / 2 ^ 7); total_iters = (s.total_iters + 1) % 2 ^ 64 }

-- The inner loop, so many rounds.
pub burst : ℕ → Spin → Spin
burst zero s = s
burst (suc k) s = burst k (mix s)

module _ {W D : Type 0} (m : Machine W D) where
  -- `elapsed`
  unfoldable pub elapsed : Timespec → Timespec → D
  elapsed start now =
      m.add (m.of_int (now.tv_sec -ℤ start.tv_sec))
        (m.div (m.of_int (now.tv_nsec -ℤ start.tv_nsec)) (m.of_int (pos 1_000_000_000)))

  -- The outer loop; `reached` is the test `elapsed >= seconds`. `none` if the fuel runs out.
  pub spin : (reached : D → Bool) (fuel : ℕ) → Timespec → Spin → W → Option (Spin × W)
  spin reached zero start s w = none
  spin reached (suc fuel) start s w =
      let s1 = burst check_every s in
      let (now, w1) = m.clock_gettime w in
      let rest = spin reached fuel start s1 w1 in
      if reached (elapsed start now) then some (s1, w1) else rest

  -- From the reading of the clock at the beginning.
  pub busy_loop : (reached : D → Bool) (fuel : ℕ) → W → Option (Spin × W)
  busy_loop reached fuel w =
      let (start, w1) = m.clock_gettime w in
      spin reached fuel start (record { sum = 0; total_iters = 0 }) w1
