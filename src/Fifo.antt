-- ===== src/Fifo.antt =====
-- What ready_queue.h promises, with no array: a list of at most `max_processes` table indices, oldest
-- first. The calls of the header and their answers are data, so that a client's session is a list.
use minios_lab_edwin_jose.Base.{
  ℕ, Bool, true, false, Option, none, some, List, [], ◌∷◌, ◌++◌, leb, if◌then◌else◌, length,
  contains, without,
}

-- MAX_PROCESSES of pcb.h
abbrev pub max_processes : ℕ
max_processes = 10

pub data Op : Type 0 where
  init dequeue peek size is_empty print : Op
  enqueue remove : ℕ → Op

pub data Reply : Type 0 where
  nothing : Reply
  status : Bool → Reply
  index : Option ℕ → Reply
  number : ℕ → Reply
  indices : List ℕ → Reply

unfoldable pub step : List ℕ → Op → Reply × List ℕ
step q init = (nothing, [])
step [] dequeue = (index none, [])
step (i ∷ q) dequeue = (index (some i), q)
step [] peek = (index none, [])
step (i ∷ q) peek = (index (some i), i ∷ q)
step q size = (number (length q), q)
step [] is_empty = (status true, [])
step (i ∷ q) is_empty = (status false, i ∷ q)
step q print = (indices q, q)
step q (enqueue i) =
    if leb max_processes (length q) then (status false, q) else (status true, q ++ i ∷ [])
step q (remove i) = (status (contains i q), without i q)

unfoldable pub run : List ℕ → List Op → List Reply
run q [] = []
run q (op ∷ ops) = let (r, q') = step q op in r ∷ run q' ops
