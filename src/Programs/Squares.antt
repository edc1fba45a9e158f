-- ===== src/Programs/Squares.antt =====
-- programs/productor.c and programs/consumidor.c: one sends the squares of 1 to 30 and then -1, the other
-- adds them up. The two run as the scheduler lets them: a step is a round of a loop of one of them.
pub mod Sums
pub mod Invariant
pub mod Laws
use minios_lab_edwin_jose.Base.{
  ℕ, zero, suc, ◌+◌, ◌*◌, ◌≤◌, ◌<◌, ◌≡◌, Bool, true, false, Option, none, some, leb, if◌then◌else◌,
}
use minios_lab_edwin_jose.Base.Int.{ℤ, pos, negsuc, ◌+ℤ◌, eq_ℤ}
use minios_lab_edwin_jose.Base.Text.{codes}
use minios_lab_edwin_jose.Machine.{CString}
use minios_lab_edwin_jose.Programs.Sockets.{Sockets, Server, serve, dial, chosen}
use minios_lab_edwin_jose.Programs.Channel.{Channel, Readable}

abbrev pub default_path : CString
default_path = codes "/tmp/minios_prodcons.sock"

-- Before the loops.
pub open_producer : {W : Type 0} → Sockets W → Option CString → W → Server × W
open_producer k arg w = serve k (chosen default_path arg) w

pub open_consumer : {W : Type 0} → Sockets W → Option CString → W → Option ℕ × W
open_consumer k arg w = dial k (chosen default_path arg) w

-- Where the producer stands: before the test of its loop, before it closes, at its end, or killed.
pub data Producer : Type 0 where
  producing : (i : ℕ) → Producer
  closing : Producer
  done : Producer
  killed : Producer

-- Where the consumer stands, with its `total` and its `count`.
pub data Consumer : Type 0 where
  consuming : (total : ℤ) (count : ℕ) → Consumer
  finished : (total : ℤ) (count : ℕ) → Consumer

-- What the answer of `recv` leads to.
pub consumed : Option ℤ → ℤ → ℕ → Consumer
consumed none total count = finished total count
consumed (some value) total count =
    if eq_ℤ value (negsuc 0) then finished total count else consuming (total +ℤ value) (count + 1)

module _ {C : Type 0} (h : Channel C) where
  -- A round of the consumer's loop.
  pub consume : ℤ → ℕ → C → Consumer × C
  consume total count c = let (value, c1) = h.recv c in (consumed value total count, c1)

  -- A round of the producer's loop, or what follows it.
  pub produce : ℕ → C → Producer × C
  produce i c =
      if leb i 30
      then (producing (i + 1), h.send (pos (i * i)) c)
      else (closing, h.send (negsuc 0) c)

pub record Pair (C : Type 0) : Type 0 where
  pub producer : Producer
  pub consumer : Consumer
  pub channel : C

-- The consumer moves only when `recv` returns. The shell can kill the producer, and then the kernel
-- closes its end.
pub data Step {C : Type 0} (h : Channel C) : Pair C → Pair C → Type 0 where
  produces :
      (i : ℕ) (s : Consumer) (c : C)
      → Step h
          (record { producer = producing i; consumer = s; channel = c })
          (record { producer = (produce h i c).0; consumer = s; channel = (produce h i c).1 })
  closes :
      (s : Consumer) (c : C)
      → Step h
          (record { producer = closing; consumer = s; channel = c })
          (record { producer = done; consumer = s; channel = h.shut c })
  consumes :
      (p : Producer) (total : ℤ) (count : ℕ) (c : C)
      → Readable h c
      → Step h
          (record { producer = p; consumer = consuming total count; channel = c })
          (record {
            producer = p;
            consumer = (consume h total count c).0;
            channel = (consume h total count c).1;
          })
  kills :
      (i : ℕ) (s : Consumer) (c : C)
      → Step h
          (record { producer = producing i; consumer = s; channel = c })
          (record { producer = killed; consumer = s; channel = h.shut c })

abbrev pub started : {C : Type 0} → C → Pair C
started c = record { producer = producing 1; consumer = consuming (pos 0) 0; channel = c }

-- The states after `n` steps from the start.
pub data Reach {C : Type 0} (h : Channel C) (c0 : C) : ℕ → Pair C → Type 0 where
  here : Reach h c0 0 (started c0)
  next : {n : ℕ} {s s' : Pair C} → Reach h c0 n s → Step h s s' → Reach h c0 (suc n) s'
