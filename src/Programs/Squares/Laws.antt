-- ===== src/Programs/Squares/Laws.antt =====
-- What the producer and the consumer do together, in every order of their steps.
use minios_lab_edwin_jose.Base.{
  ℕ, zero, suc, ◌+◌, ◌-◌, ◌*◌, ◌^◌, ◌≤◌, ◌<◌, ◌≡◌, ◌≢◌, refl, ap, ◌∙◌, ◌⊎◌, inl, inr, Bool, true,
  false, Option, none, some, List, [], arith,
}
use minios_lab_edwin_jose.Base.Int.{ℤ, pos, negsuc}
use minios_lab_edwin_jose.Programs.Channel.{Channel, arrived, ended}
use minios_lab_edwin_jose.Programs.Squares.{
  Producer, producing, closing, done, killed, Consumer, consuming, finished, consumed, consume,
  produce, Pair, Step, produces, closes, consumes, kills, Reach, here, next,
}
use minios_lab_edwin_jose.Programs.Squares.Sums.{sum_squares, sum_squares-le}
use minios_lab_edwin_jose.Programs.Squares.Invariant.{Together, Pending-le, Inv, Step-Inv}

-- How many steps may follow.
abbrev pub left_of : Producer → ℕ
left_of (producing i) = 33 - i
left_of closing = 1
left_of _ = 0

abbrev pub left_for : Consumer → ℕ
left_for (consuming total k) = 31 - k
left_for (finished total k) = 0

abbrev pub sum_of : Consumer → ℤ
sum_of (consuming total k) = total
sum_of (finished total k) = total

abbrev pub count_of : Consumer → ℕ
count_of (consuming total k) = k
count_of (finished total k) = k

abbrev pub is_finished : Consumer → Bool
is_finished (consuming total k) = false
is_finished (finished total k) = true

summed :
    (p : Producer) (s : Consumer) (q : List ℤ) (cl : Bool)
    → Together p s q cl
    → (sum_of s ≡ pos (sum_squares (count_of s)))
      × (count_of s ≤ 30)
      × (sum_squares (count_of s) < 2 ^ 31)
      × (is_finished s ≡ true → p ≢ killed → sum_of s ≡ pos 9455)
summed p (consuming total k) q cl (e, w) = (
  e,
  Pending-le p k q cl w,
  omega (arith, sum_squares-le k (Pending-le p k q cl w)),
  λ f _. absurd (cc f),
)
summed (producing i) (finished total k) q cl (e, w) = absurd (cc w)
summed closing (finished total k) q cl (e, w) = (
  e,
  omega (arith, w),
  omega (arith, sum_squares-le k (omega (arith, w))),
  λ _ _. e ∙ ap (λ x. pos (sum_squares x)) w,
)
summed done (finished total k) q cl (e, w) = (
  e,
  omega (arith, w),
  omega (arith, sum_squares-le k (omega (arith, w))),
  λ _ _. e ∙ ap (λ x. pos (sum_squares x)) w,
)
summed killed (finished total k) q cl (e, w) =
    (e, w, omega (arith, sum_squares-le k w), λ _ ne. absurd (ne refl))

module _ {C : Type 0} (h : Channel C) where
  left-produce : (i : ℕ) (c : C) → i ≤ 31 → left_of (produce h i c).0 < left_of (producing i)
  unfolding produce
  left-produce i c le = ground arith

  left-consumed :
      (v : Option ℤ) (total : ℤ) (k : ℕ) → k ≤ 30 → left_for (consumed v total k) < 31 - k
  unfolding consumed
  left-consumed none total k le = omega arith
  left-consumed (some v) total k le = ground arith

  left-consume : (total : ℤ) (k : ℕ) (c : C) → k ≤ 30 → left_for (consume h total k c).0 < 31 - k
  unfolding consume
  left-consume total k c le = left-consumed (h.recv c).0 total k le

  in_range :
      (i : ℕ) (s : Consumer) (q : List ℤ) (cl : Bool) → Together (producing i) s q cl → i ≤ 31
  in_range i (consuming total k) q cl (e, (n, at, le, q1, cl1)) = le
  in_range i (finished total k) q cl (e, f) = absurd (cc f)

  -- What is left gets less with each step.
  Step-left :
      {s s' : Pair C}
      → Step h s s'
      → Inv h s
      → left_of s'.producer + left_for s'.consumer < left_of s.producer + left_for s.consumer
  Step-left (produces i s c) v =
      omega (arith, left-produce i c (in_range i s (h.queued c) (h.closed c) v))
  Step-left (closes s c) v = omega arith
  Step-left (consumes p total k c r) v =
      omega (arith, left-consume total k c (Pending-le p k (h.queued c) (h.closed c) v.1))
  Step-left (kills i s c) v = omega (arith, in_range i s (h.queued c) (h.closed c) v)

  progress :
      (p : Producer) (s : Consumer) (c : C)
      → Inv h (record { producer = p; consumer = s; channel = c })
      → (is_finished s ≡ true) × (left_of p ≡ 0)
        ⊎ ((s' : Pair C) × Step h (record { producer = p; consumer = s; channel = c }) s')
  progress (producing i) s c v = inr (_, produces i s c)
  progress closing s c v = inr (_, closes s c)
  progress done (finished total k) c v = inl (refl, refl)
  progress killed (finished total k) c v = inl (refl, refl)
  progress done (consuming total k) c (e, (zero, all, q, cl)) =
      inr (_, consumes done total k c (arrived (negsuc 0) [] q))
  progress done (consuming total k) c (e, (suc n, all, q, cl)) =
      inr (_, consumes done total k c (arrived (pos (suc k * suc k)) _ q))
  progress killed (consuming total k) c (e, (zero, all, q, cl)) =
      inr (_, consumes killed total k c (ended q cl))
  progress killed (consuming total k) c (e, (suc n, all, q, cl)) =
      inr (_, consumes killed total k c (arrived (pos (suc k * suc k)) _ q))

  module _ (c0 : C) (empty : h.queued c0 ≡ []) (fresh : h.closed c0 ≡ false) where
    Reach-Inv : {n : ℕ} {s : Pair C} → Reach h c0 n s → Inv h s
    Reach-Inv here = (refl, (0, omega arith, omega arith, empty, fresh))
    Reach-Inv (next r st) = Step-Inv h st (Reach-Inv r)

    -- In every order of the steps: what the consumer has added up are the squares of 1 to `count`, at most 30
    -- of them, and the sum fits an `int`; once it has finished, it has had all 30, unless the producer was
    -- killed.
    pub total-sum :
        {n : ℕ} {s : Pair C}
        → Reach h c0 n s
        → (sum_of s.consumer ≡ pos (sum_squares (count_of s.consumer)))
          × (count_of s.consumer ≤ 30)
          × (sum_squares (count_of s.consumer) < 2 ^ 31)
          × (is_finished s.consumer ≡ true → s.producer ≢ killed → sum_of s.consumer ≡ pos 9455)
    total-sum {n} {s} r =
        summed s.producer s.consumer (h.queued s.channel) (h.closed s.channel) (Reach-Inv r)

    -- No order of the steps goes on for more than 63 steps.
    Reach-left :
        {n : ℕ} {s : Pair C} → Reach h c0 n s → n + left_of s.producer + left_for s.consumer ≤ 63
    Reach-left here = omega arith
    Reach-left (next {n} {s} {s'} r st) = omega (arith, Reach-left r, Step-left st (Reach-Inv r))

    -- The two never wait for each other for ever: at most 63 steps are made, and in a state in which none can
    -- be made both have finished, the producer regularly or by being killed.
    pub ends :
        {n : ℕ} {s : Pair C}
        → Reach h c0 n s
        → (n ≤ 63)
          × ((is_finished s.consumer ≡ true) × (left_of s.producer ≡ 0)
              ⊎ ((s' : Pair C) × Step h s s'))
    ends {n} {s} r =
        (omega (arith, Reach-left r), progress s.producer s.consumer s.channel (Reach-Inv r))
