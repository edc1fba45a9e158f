-- ===== src/Programs/Channel.antt =====
-- One direction of a connected stream socket, as its documentation describes it: what was sent is
-- received in order and once; the end of the stream comes after the last of it, once the writer has
-- closed. The integers of the programs are sent and received whole.
use minios_lab_edwin_jose.Base.{◌≡◌, Bool, true, false, Option, none, some, List, [], ◌∷◌, ◌++◌}
use minios_lab_edwin_jose.Base.Int.{ℤ}

pub record Channel (C : Type 0) : Type 0 where
  pub send : ℤ → C → C
  -- `none` where recv(2) returns 0 or -1
  pub recv : C → Option ℤ × C
  pub shut : C → C
  -- what can still be received, and whether the writer has closed
  pub queued : C → List ℤ
  pub closed : C → Bool
  pub queued-send : (x : ℤ) (c : C) → closed c ≡ false → queued (send x c) ≡ queued c ++ x ∷ []
  pub closed-send : (x : ℤ) (c : C) → closed (send x c) ≡ closed c
  pub queued-shut : (c : C) → queued (shut c) ≡ queued c
  pub closed-shut : (c : C) → closed (shut c) ≡ true
  pub recv-queued :
      (x : ℤ) (q : List ℤ) (c : C)
      → queued c ≡ x ∷ q
      → ((recv c).0 ≡ some x) × (queued (recv c).1 ≡ q) × (closed (recv c).1 ≡ closed c)
  pub recv-end :
      (c : C)
      → queued c ≡ []
      → closed c ≡ true
      → ((recv c).0 ≡ none) × (queued (recv c).1 ≡ []) × (closed (recv c).1 ≡ true)

-- recv(2) returns: something is there, or nothing will come.
pub data Readable {C : Type 0} (h : Channel C) (c : C) : Type 0 where
  arrived : (x : ℤ) (q : List ℤ) → h.queued c ≡ x ∷ q → Readable h c
  ended : h.queued c ≡ [] → h.closed c ≡ true → Readable h c
