-- ===== src/Tests/Programs.antt =====
-- The theorems on the sample programs at concrete inputs: a channel that is a list, and runs of the
-- communicating programs.
use minios_lab_edwin_jose.Programs.Lottery.{attempt_limit, loteria}
use minios_lab_edwin_jose.Programs.Lottery.Laws.{IsTrue, loteria-IsTrue}
use minios_lab_edwin_jose.Programs.Primes.{
  Decides, IsPrime, is_prime, printed, is_prime-Decides, printed-primes,
}
use minios_lab_edwin_jose.Base.{All, contains}
use minios_lab_edwin_jose.Base.{
  ℕ, ◌+◌, ◌^◌, ◌≤◌, ◌<◌, ◌≡◌, ◌≢◌, refl, ◌⊎◌, Bool, true, false, Option, none, some, List, [], ◌∷◌,
  ◌++◌, ◌==◌, length, arith,
}
use minios_lab_edwin_jose.Base.Int.{ℤ, pos}
use minios_lab_edwin_jose.Programs.Sockets.{Sockets}
use minios_lab_edwin_jose.Programs.Channel.{Channel}
use minios_lab_edwin_jose.Programs.Squares
use minios_lab_edwin_jose.Programs.Squares.{Producer, Pair, produces, consumes}
use minios_lab_edwin_jose.Programs.Squares.Laws.{
  sum_of, count_of, is_finished, left_of, total-sum, ends,
}
use minios_lab_edwin_jose.Programs.Squares.Sums.{sum_squares}
use minios_lab_edwin_jose.Programs.PingPong
use minios_lab_edwin_jose.Programs.PingPong.{Match, client_sends}
use minios_lab_edwin_jose.Programs.PingPong.Laws.{
  ServerCounts, ClientCounts, server_left, client_left, exchange, never_stuck,
}

-- What can still be received, and whether the writer has closed.
abbrev Line : Type 0
Line = List ℤ × Bool

abbrev line_recv : Line → Option ℤ × Line
line_recv ([], cl) = (none, ([], cl))
line_recv (x ∷ q, cl) = (some x, (q, cl))

line-recv-queued :
    (x : ℤ) (q : List ℤ) (c : Line)
    → c.0 ≡ x ∷ q
    → ((line_recv c).0 ≡ some x) × ((line_recv c).1.0 ≡ q) × ((line_recv c).1.1 ≡ c.1)
line-recv-queued x q ([], cl) e = absurd (cc e)
line-recv-queued x q (y ∷ r, cl) e = (cc e, cc e, refl)

line-recv-end :
    (c : Line)
    → c.0 ≡ []
    → c.1 ≡ true
    → ((line_recv c).0 ≡ none) × ((line_recv c).1.0 ≡ []) × ((line_recv c).1.1 ≡ true)
line-recv-end ([], cl) e f = (refl, refl, f)
line-recv-end (y ∷ r, cl) e f = absurd (cc e)

abbrev line : Channel Line
line = record {
  send = λ x c. (c.0 ++ x ∷ [], c.1);
  recv = line_recv;
  shut = λ c. (c.0, true);
  queued = λ c. c.0;
  closed = λ c. c.1;
  queued-send = λ x c e. refl;
  closed-send = λ x c. refl;
  queued-shut = λ c. refl;
  closed-shut = λ c. refl;
  recv-queued = line-recv-queued;
  recv-end = line-recv-end;
}

abbrev empty_line : Line
empty_line = ([], false)

-- The first square is on its way.
abbrev one_sent : Pair Line
one_sent = record {
  producer = (Squares.produce line 1 empty_line).0;
  consumer = Squares.consuming (pos 0) 0;
  channel = (Squares.produce line 1 empty_line).1;
}

one_sent-Reach : Squares.Reach line empty_line 1 one_sent
one_sent-Reach = Squares.next Squares.here (produces 1 (Squares.consuming (pos 0) 0) empty_line)

total-sum_example :
    (sum_of one_sent.consumer ≡ pos (sum_squares (count_of one_sent.consumer)))
    × (count_of one_sent.consumer ≤ 30)
    × (sum_squares (count_of one_sent.consumer) < 2 ^ 31)
    × (is_finished one_sent.consumer ≡ true
        → one_sent.producer ≢ Squares.killed
        → sum_of one_sent.consumer ≡ pos 9455)
total-sum_example = total-sum line empty_line refl refl one_sent-Reach

ends_example :
    (1 ≤ 63)
    × ((is_finished one_sent.consumer ≡ true) × (left_of one_sent.producer ≡ 0)
        ⊎ ((s' : Pair Line) × Squares.Step line one_sent s'))
ends_example = ends line empty_line refl refl one_sent-Reach

-- The first message is on its way.
abbrev asked : Match Line
asked = record {
  server = PingPong.awaiting 0;
  client = PingPong.waiting 0 (pos 1);
  up = (pos 1 ∷ [], false);
  down = empty_line;
}

asked-Reach : PingPong.Reach line empty_line empty_line 1 asked
asked-Reach =
    PingPong.next PingPong.here (client_sends 0 (pos 1) (PingPong.awaiting 0) empty_line empty_line)

exchange_example :
    ServerCounts asked.server
    × ClientCounts asked.client
    × (length (line.queued asked.up) + length (line.queued asked.down) ≤ 1)
exchange_example = exchange line empty_line empty_line refl refl refl refl asked-Reach

never_stuck_example :
    (1 ≤ 82)
    × ((server_left asked.server + client_left asked.client ≡ 0)
        ⊎ ((s' : Match Line) × PingPong.Step line asked s'))
never_stuck_example = never_stuck line empty_line empty_line refl refl refl refl asked-Reach

-- A server that listens after two attempts: the outside world is the time.
abbrev late : Sockets ℕ
late = record {
  unlink = λ path w. w;
  socket = λ w. (some 3, w);
  bind = λ fd path w. (true, w);
  listen = λ fd n w. (true, w);
  accept = λ fd w. (some 4, w);
  connect = λ fd path w. (w == 200_000, w);
  usleep = λ n w. w + n;
  close = λ fd w. w;
}

is_prime-Decides_example : Decides 7 (is_prime 7)
is_prime-Decides_example = is_prime-Decides 7 (omega arith)

printed-primes_example :
    All IsPrime (printed 9 2)
    × ((x : ℕ) → 2 ≤ x → x < 2 + 9 → IsPrime x → contains x (printed 9 2) ≡ true)
printed-primes_example = printed-primes 9 2 (omega arith)

loteria-IsTrue_example : IsTrue (λ i. i) attempt_limit (loteria (λ i. i))
loteria-IsTrue_example = loteria-IsTrue (λ i. i)
