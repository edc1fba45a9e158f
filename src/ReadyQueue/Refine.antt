-- ===== src/ReadyQueue/Refine.antt =====
-- No client of ready_queue.h can tell the circular array from the bounded list of `Fifo`.
use minios_lab_edwin_jose.Base.{ℕ, ◌≡◌, refl, sym, ap, List, [], ◌∷◌, arith}
use minios_lab_edwin_jose.Fifo
use minios_lab_edwin_jose.Fifo.{Op, Reply, nothing, status, index, number, indices}
use minios_lab_edwin_jose.Fifo.{max_processes}
use minios_lab_edwin_jose.ReadyQueue.{
  ReadyQueue, init, enqueue, dequeue, peek, is_empty, size, remove, walk,
}
use minios_lab_edwin_jose.ReadyQueue.Contents.{
  IsRing, contents, length-contents, contents-enqueue, enqueue-full, contents-dequeue,
  dequeue-empty, contents-remove, walk-eq, collect-pop, contents-nil,
}

-- One call of the header: the answer and the queue after it.
unfoldable pub step : ReadyQueue → Op → Reply × ReadyQueue
step q Op.init = (nothing, init q)
step q Op.dequeue = let (out, q') = dequeue q in (index out, q')
step q Op.peek = (index (peek q), q)
step q Op.size = (number (size q), q)
step q Op.is_empty = (status (is_empty q), q)
step q Op.print = (indices (walk q.count 0 q), q)
step q (Op.enqueue i) = let (done, q') = enqueue i q in (status done, q')
step q (Op.remove i) = let (done, q') = remove i q in (status done, q')

unfoldable pub run : ReadyQueue → List Op → List Reply
run q [] = []
run q (op ∷ ops) = let (r, q') = step q op in r ∷ run q' ops

step-dequeue :
    {q : ReadyQueue}
    → IsRing q
    → let (r, q') = step q Op.dequeue in
      ((r, contents q') ≡ Fifo.step (contents q) Op.dequeue) × IsRing q'
unfolding step Fifo.step
step-dequeue {q} v = ground (arith, dequeue-empty q, contents-dequeue v, contents-nil q)

step-enqueue :
    (i : ℕ) {q : ReadyQueue}
    → IsRing q
    → let (r, q') = step q (Op.enqueue i) in
      ((r, contents q') ≡ Fifo.step (contents q) (Op.enqueue i)) × IsRing q'
unfolding step Fifo.step
step-enqueue i {q} v = ground (arith, contents-enqueue i v, enqueue-full i q, length-contents q)

step-remove :
    (i : ℕ) {q : ReadyQueue}
    → IsRing q
    → let (r, q') = step q (Op.remove i) in
      ((r, contents q') ≡ Fifo.step (contents q) (Op.remove i)) × IsRing q'
unfolding step Fifo.step
step-remove i {q} v = ground (arith, contents-remove i v)

step-peek :
    {q : ReadyQueue}
    → IsRing q
    → let (r, q') = step q Op.peek in
      ((r, contents q') ≡ Fifo.step (contents q) Op.peek) × IsRing q'
unfolding step Fifo.step peek
step-peek {q} v = ground (arith, collect-pop q.slots q.front q.count v.front_in, contents-nil q)

step-is_empty :
    {q : ReadyQueue}
    → IsRing q
    → let (r, q') = step q Op.is_empty in
      ((r, contents q') ≡ Fifo.step (contents q) Op.is_empty) × IsRing q'
unfolding step Fifo.step is_empty
step-is_empty {q} v = ground (arith, collect-pop q.slots q.front q.count v.front_in, contents-nil q)

-- Every call answers as the list does, and leaves a well-formed ring that holds the list after it.
pub step_refines :
    (op : Op) {q : ReadyQueue}
    → IsRing q
    → let (r, q') = step q op in ((r, contents q') ≡ Fifo.step (contents q) op) × IsRing q'
unfolding step Fifo.step init size
step_refines Op.init v = (refl, omega arith)
step_refines Op.dequeue v = step-dequeue v
step_refines Op.peek v = step-peek v
step_refines Op.size {q} v = (ap (λ n. (number n, contents q)) (sym (length-contents q)), v)
step_refines Op.is_empty v = step-is_empty v
step_refines Op.print {q} v =
    (ap (λ l. (indices l, contents q)) (walk-eq q.count 0 q.front q (omega arith)), v)
step_refines (Op.enqueue i) v = step-enqueue i v
step_refines (Op.remove i) v = step-remove i v

-- Every session of calls on a well-formed ring gets the answers that the bounded list gives.
pub run_refines :
    (ops : List Op) {q : ReadyQueue} → IsRing q → run q ops ≡ Fifo.run (contents q) ops
unfolding run Fifo.run
run_refines [] v = refl
run_refines (op ∷ ops) {q} v = rw (run_refines ops (step_refines op v).1, ← (step_refines op v).0)
