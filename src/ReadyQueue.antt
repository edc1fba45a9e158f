-- ===== src/ReadyQueue.antt =====
-- src/ready_queue.c: the circular queue of process-table indices. `none` is the return value -1,
-- a status `true` is 0. The static variables `queue`, `front`, `rear` and `count` are the fields of
-- a record. `print` only writes to the terminal: it is the list of the indices that it walks.
pub mod Contents
pub mod Refine
use minios_lab_edwin_jose.Base.{
  ℕ, zero, suc, ◌+◌, ◌-◌, ◌%◌, Bool, true, false, Option, none, some, List, [], ◌∷◌, ◌++◌, ◌==◌,
  leb, ◌||◌, if◌then◌else◌, update, length,
}
use minios_lab_edwin_jose.Fifo.{max_processes}

pub record ReadyQueue : Type 0 where
  pub slots : ℕ → ℕ
  pub front : ℕ
  pub rear : ℕ
  pub count : ℕ

pub init : ReadyQueue → ReadyQueue
init q = record q { front = 0; rear = 0; count = 0 }

pub enqueue : ℕ → ReadyQueue → Bool × ReadyQueue
enqueue idx q = if leb max_processes q.count then (false, q) else (
  true,
  record q {
    slots = update q.slots q.rear idx;
    rear = (q.rear + 1) % max_processes;
    count = q.count + 1;
  },
)

pub dequeue : ReadyQueue → Option ℕ × ReadyQueue
dequeue q = if q.count == 0 then (none, q) else (
  some (q.slots q.front),
  record q { front = (q.front + 1) % max_processes; count = q.count - 1 },
)

pub peek : ReadyQueue → Option ℕ
peek q = if q.count == 0 then none else some (q.slots q.front)

pub size : ReadyQueue → ℕ
size q = q.count

pub is_empty : ReadyQueue → Bool
is_empty q = q.count == 0

-- The first loop of `remove`: `rounds` rounds from `i` on. The list is the filled part of `new_queue`.
pub rebuild : (rounds i idx : ℕ) → ReadyQueue → List ℕ → Bool → List ℕ × Bool
rebuild zero i idx q new_queue found = (new_queue, found)
rebuild (suc k) i idx q new_queue found =
    let entry = q.slots ((q.front + i) % max_processes) in
    let hit = entry == idx in
    rebuild k (i + 1) idx q (if hit then new_queue else new_queue ++ entry ∷ [])
      (if hit then true else found)

-- The second loop: the list is `new_queue[i..new_count)`.
pub copy_back : List ℕ → ℕ → (ℕ → ℕ) → ℕ → ℕ
copy_back [] i slots = slots
copy_back (x ∷ xs) i slots = copy_back xs (i + 1) (update slots i x)

pub remove : ℕ → ReadyQueue → Bool × ReadyQueue
unfolding rebuild copy_back
remove idx q =
    let (new_queue, found) = rebuild q.count 0 idx q [] false in
    if found
    then (
      true,
      record {
        slots = copy_back new_queue 0 q.slots;
        front = 0;
        rear = length new_queue;
        count = length new_queue;
      },
    )
    else (false, q)

-- The loop of `rq_print`: the indices whose pids it prints, in order.
pub walk : (rounds i : ℕ) → ReadyQueue → List ℕ
walk zero i q = []
walk (suc k) i q = q.slots ((q.front + i) % max_processes) ∷ walk k (i + 1) q
