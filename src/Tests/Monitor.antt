-- ===== src/Tests/Monitor.antt =====
-- The theorem on the monitor's descriptors at a concrete input: a kernel that is the set of the open descriptors.
use minios_lab_edwin_jose.Base.{
  ℕ, ◌+◌, ◌==◌, ◌≡◌, refl, ap, Bool, true, false, not, ◌&&◌, ◌||◌, none, some, List, [], ◌∷◌, ltb,
  Option,
}
use minios_lab_edwin_jose.Base.Int.{pos}
use minios_lab_edwin_jose.Machine.{Machine, failed, broken}
use minios_lab_edwin_jose.Monitor.{Monitor, close}
use minios_lab_edwin_jose.Monitor.Descriptors.{
  TracksOpen, Split, Call, switched, enabling, perform_calls, perform_calls-Split,
}
use minios_lab_edwin_jose.Tests.Data.{epoch}

abbrev Open : Type 0
Open = ℕ → Bool

-- There is one descriptor to give away, 3.
abbrev give : Bool → Open → Option ℕ × Open
give true w = (none, w)
give false w = (some 3, λ k. (3 == k) || w k)

-- Its sockets connect, and break at the first write.
abbrev tracking : Machine Open ℕ
tracking = record {
  fork = λ w. (none, w);
  kill = λ pid sig w. (false, w);
  waitpid = λ target flags w. (failed, w);
  clock_gettime = λ w. (epoch, w);
  setitimer = λ v w. w;
  ptrace_traceme = λ w. (true, w);
  ptrace_getregs = λ pid w. (none, w);
  ptrace_attach = λ pid w. (true, w);
  ptrace_detach = λ pid sig w. (true, w);
  socket = λ w. give (w 3) w;
  connect = λ fd path w. (true, w);
  set_nonblock = λ fd w. w;
  write = λ fd bytes w. (broken, w);
  close = λ fd w k. not (fd == k) && w k;
  access = λ path w. (true, w);
  unlink = λ path w. w;
  strdup = λ path w. (true, w);
  basename = λ path. path;
  atoi = λ s. pos 0;
  format = λ pieces. [];
  of_int = λ n. 0;
  add = ◌+◌;
  mul = λ a b. a;
  div = λ a b. a;
}

give_unused : (b : Bool) (w : Open) (fd : ℕ) → w 3 ≡ b → (give b w).0 ≡ some fd → w fd ≡ false
give_unused true w fd e h = absurd (cc h)
give_unused false w fd e h = let at : 3 ≡ fd = cc h in rw (← at) e

give-some :
    (b : Bool) (w : Open) (fd : ℕ)
    → (give b w).0 ≡ some fd
    → (k : ℕ) → (give b w).1 k ≡ ((fd == k) || w k)
give-some true w fd h k = absurd (cc h)
give-some false w fd h k = let at : 3 ≡ fd = cc h in ap (λ n. (n == k) || w k) at

give-none : (b : Bool) (w : Open) → (give b w).0 ≡ none → (k : ℕ) → (give b w).1 k ≡ w k
give-none true w h k = refl
give-none false w h k = absurd (cc h)

tracking-TracksOpen : TracksOpen tracking (λ w. w)
tracking-TracksOpen = record {
  socket_unused = λ w fd e. give_unused (w 3) w fd refl e;
  socket_some = λ w fd e. give-some (w 3) w fd e;
  socket_none = λ w e. give-none (w 3) w e;
  close_only = λ fd w k. refl;
  connect_same = λ fd path w k. refl;
  set_nonblock_same = λ fd w k. refl;
  write_same = λ fd bytes w k. refl;
  clock_gettime_same = λ w k. refl;
}

abbrev offline : Monitor
offline = record { sock_fd = none; enabled = false }

-- The three standard descriptors.
abbrev standard : Open
standard k = ltb k 3

abbrev calls : List (Call ℕ)
calls = enabling true ∷ switched 100 101 (pos 500) ∷ switched 101 100 (pos 500) ∷ []

perform_calls-Split_example :
    let (mon', w') = perform_calls tracking calls offline standard in
    Split standard w' mon' × ((k : ℕ) → (close tracking mon' w').1 k ≡ standard k)
perform_calls-Split_example =
    perform_calls-Split tracking (λ w. w) tracking-TracksOpen standard calls offline standard
      (λ k. refl, λ k. refl)
