-- ===== src/ReadyQueue/Contents.antt =====
-- What the queue of ready_queue.c holds, oldest first, and what each operation does to it.
use minios_lab_edwin_jose.Base.{
  ℕ, zero, suc, ◌+◌, ◌-◌, ◌%◌, ◌≤◌, ◌<◌, ◌≡◌, ◌≢◌, refl, sym, ap, ◌∙◌, Bool, true, false, none,
  some, List, [], ◌∷◌, ◌++◌, ◌==◌, ◌||◌, update, length, arith, contains, without, append_assoc,
  append-nil, eq-true, eq-false, Bool-cases, inl, inr, length-without_lt, without-missing,
}
use minios_lab_edwin_jose.Fifo.{max_processes}
use minios_lab_edwin_jose.ReadyQueue.{
  init, ReadyQueue, enqueue, dequeue, is_empty, size, rebuild, copy_back, remove, walk,
}

-- The `n` entries that stand from position `h` on, positions taken modulo the capacity.
abbrev pub collect : (ℕ → ℕ) → ℕ → ℕ → List ℕ
collect slots h zero = []
collect slots h (suc n) = slots (h % 10) ∷ collect slots (h + 1) n

abbrev pub contents : ReadyQueue → List ℕ
contents q = collect q.slots q.front q.count

pub record IsRing (q : ReadyQueue) : Type 0 where
  pub front_in : q.front < max_processes
  pub count_in : q.count ≤ max_processes
  pub closes : q.rear ≡ (q.front + q.count) % max_processes

pub length-collect : (slots : ℕ → ℕ) (h n : ℕ) → length (collect slots h n) ≡ n
length-collect slots h zero = refl
length-collect slots h (suc n) = ap suc (length-collect slots (h + 1) n)

pub length-contents : (q : ReadyQueue) → length (contents q) ≡ q.count
length-contents q = length-collect q.slots q.front q.count

-- Only the position modulo the capacity counts.
collect-congr :
    (slots : ℕ → ℕ) (h k n : ℕ) → h % 10 ≡ k % 10 → collect slots h n ≡ collect slots k n
collect-congr slots h k zero e = refl
collect-congr slots h k (suc n) e =
    ground (arith, ap slots e, collect-congr slots (h + 1) (k + 1) n (omega arith))

-- A write just behind the window extends it.
collect-snoc :
    (slots : ℕ → ℕ) (x n h r : ℕ)
    → n < 10
    → r ≡ (h + n) % 10
    → collect (update slots r x) h (suc n) ≡ collect slots h n ++ x ∷ []
collect-snoc slots x zero h r lt e = rw (eq-true r (h % 10) (omega arith)) refl
collect-snoc slots x (suc n) h r lt e =
    rw (eq-false r (h % 10) (omega arith))
      (ap (◌∷◌ (slots (h % 10))) (collect-snoc slots x n (h + 1) r (omega arith) (omega arith)))

pub collect-pop :
    (slots : ℕ → ℕ) (h n : ℕ)
    → h < 10
    → n ≢ 0
    → collect slots h n ≡ slots h ∷ collect slots ((h + 1) % 10) (n - 1)
collect-pop slots h zero lt ne = absurd (ne refl)
collect-pop slots h (suc n) lt ne =
    ground (arith, collect-congr slots (h + 1) ((h + 1) % 10) n (omega arith))

-- The copy back writes the list from position `i` on and nothing before it.
copy_back-below : (xs : List ℕ) (i j : ℕ) (slots : ℕ → ℕ) → j < i → copy_back xs i slots j ≡ slots j
unfolding copy_back
copy_back-below [] i j slots lt = refl
copy_back-below (x ∷ xs) i j slots lt =
    copy_back-below xs (i + 1) j (update slots i x) (omega arith) ∙ rw (eq-false i j (omega arith))

collect-copy_back :
    (xs : List ℕ) (i : ℕ) (slots : ℕ → ℕ)
    → i + length xs ≤ 10
    → collect (copy_back xs i slots) i (length xs) ≡ xs
unfolding copy_back
collect-copy_back [] i slots le = refl
collect-copy_back (x ∷ xs) i slots le = ground (
  arith,
  collect-copy_back xs (i + 1) (update slots i x) (omega arith),
  copy_back-below xs (i + 1) i (update slots i x),
)

-- The rebuilding loop keeps the other entries in order, and finds whether the index occurred.
rebuild-eq :
    (k i h idx : ℕ) (q : ReadyQueue) (new_queue : List ℕ) (found : Bool)
    → h ≡ q.front + i
    → rebuild k i idx q new_queue found ≡ (
      new_queue ++ without idx (collect q.slots h k),
      contains idx (collect q.slots h k) || found,
    )
unfolding rebuild
rebuild-eq zero i h idx q new_queue found e = rw append-nil
rebuild-eq (suc k) i h idx q new_queue found e = elim (Bool-cases (q.slots (h % 10) == idx)) [
  | inl hit ↦
      rw (← e, hit) (rebuild-eq k (i + 1) (h + 1) idx q new_queue true (omega arith) ∙ ground arith)
  | inr miss ↦
      rw (← e, miss)
        (rebuild-eq k (i + 1) (h + 1) idx q (new_queue ++ q.slots (h % 10) ∷ []) found (omega arith)
          ∙ ground (
            arith,
            append_assoc new_queue (q.slots (h % 10) ∷ [])
                (without idx (collect q.slots (h + 1) k)),
          ))
]

-- Enqueueing appends, unless the queue is full: then it answers -1 and changes nothing.
pub contents-enqueue :
    (i : ℕ) {q : ReadyQueue}
    → IsRing q
    → q.count < max_processes
    → let (done, q') = enqueue i q in
      (done ≡ true) × (contents q' ≡ contents q ++ i ∷ []) × IsRing q' × (q'.count ≡ q.count + 1)
unfolding enqueue
contents-enqueue i {q} v lt =
    ground (arith, collect-snoc q.slots i q.count q.front q.rear lt v.closes)

pub enqueue-full : (i : ℕ) (q : ReadyQueue) → max_processes ≤ q.count → enqueue i q ≡ (false, q)
unfolding enqueue
enqueue-full i q h = ground arith

-- Dequeueing takes the oldest entry, and fails on the empty queue only.
pub contents-dequeue :
    {q : ReadyQueue}
    → IsRing q
    → q.count ≢ 0
    → let (out, q') = dequeue q in
      (i : ℕ) × (out ≡ some i)
      × (contents q ≡ i ∷ contents q')
      × IsRing q'
      × (q'.count + 1 ≡ q.count)
unfolding dequeue
contents-dequeue {q} v ne = (
  q.slots q.front,
  ground arith,
  ground (arith, collect-pop q.slots q.front q.count v.front_in ne),
  ground arith,
  ground arith,
)

pub contents-nil : (q : ReadyQueue) → q.count ≡ 0 → contents q ≡ []
contents-nil q e = rw e

pub dequeue-empty : (q : ReadyQueue) → q.count ≡ 0 → dequeue q ≡ (none, q)
unfolding dequeue
dequeue-empty q h = ground arith

-- Removing leaves out the index and keeps the order of the others; it answers 0 just when the
-- index was there, and otherwise changes nothing.
pub contents-remove :
    (i : ℕ) {q : ReadyQueue}
    → IsRing q
    → let (found, q') = remove i q in
      (found ≡ contains i (contents q)) × (contents q' ≡ without i (contents q)) × IsRing q'
unfolding remove
contents-remove i {q} v =
    rw (rebuild-eq q.count 0 q.front i q [] false (omega arith))
      (elim (Bool-cases (contains i (contents q))) [
        | inl hit ↦ rw hit (
          refl,
          collect-copy_back (without i (contents q)) 0 q.slots (omega (arith, fits hit)),
          ring (fits hit),
        )
        | inr miss ↦ rw miss (refl, sym (without-missing i (contents q) miss), v)
      ])
  where
    fits : contains i (contents q) ≡ true → length (without i (contents q)) < 10
    fits hit = omega (arith, length-without_lt i (contents q) hit, length-contents q, v.count_in)

    ring :
        length (without i (contents q)) < 10
        → IsRing (record {
          slots = copy_back (without i (contents q)) 0 q.slots;
          front = 0;
          rear = length (without i (contents q));
          count = length (without i (contents q));
        })
    ring lt = omega arith

pub walk-eq : (k i h : ℕ) (q : ReadyQueue) → h ≡ q.front + i → walk k i q ≡ collect q.slots h k
unfolding walk
walk-eq zero i h q e = refl
walk-eq (suc k) i h q e =
    rw (← e) (ap (◌∷◌ (q.slots (h % 10))) (walk-eq k (i + 1) (h + 1) q (omega arith)))

pub is_empty-true : (q : ReadyQueue) → q.count ≡ 0 → is_empty q ≡ true
unfolding is_empty
is_empty-true q e = ground arith

pub is_empty-false : (q : ReadyQueue) → q.count ≢ 0 → is_empty q ≡ false
unfolding is_empty
is_empty-false q e = ground arith

pub size-count : (q : ReadyQueue) → q.count ≤ size q
unfolding size
size-count q = omega arith

pub init-empty : (q : ReadyQueue) → IsRing (init q) × (contents (init q) ≡ [])
unfolding init
init-empty q = (omega arith, refl)
