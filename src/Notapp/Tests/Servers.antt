-- ===== src/Notapp/Tests/Servers.antt =====
-- A server that becomes a daemon and takes two clients, on a kernel with eight descriptors.
use c380_1code.Base.{
  ℕ, zero, suc, ◌+◌, ◌≤◌, ◌<◌, ◌≡◌, ◌≢◌, refl, true, false, inl, inr, Bool-cases, Bool, Option,
  none, some, List, [], ◌∷◌, map, ◌==◌, ltb, if◌then◌else◌, length, arith, update,
}
use c380_1code.Notapp.Args.{NotappArgs, init_notapp_args}
use c380_1code.Notapp.Daemon.{
  File, dev_null, other, IsLowest, Gains, Kernel, Forked, child, fork_failed, parent, exited,
  daemon, daemonize,
}
use c380_1code.Notapp.Daemon.Descriptors.{daemonize-descriptors}
use c380_1code.Notapp.UserClient.{intro_user, intro_observer}
use c380_1code.Notapp.DoServer.{
  accepted_socket, Arrival, for_observer, for_user, accept_loop, serve_arrival, add_taken,
  add_threads, thread_for, read_socket, timer, sorter, serving, do_server,
}
use c380_1code.Notapp.ObserverThread.{observer, user, accept_client, after_id, dispatch}
use c380_1code.Notapp.DoServer.Starts.{
  bytes_of, Client, introduces, hangs_up, taken_of, threads_of, arrival_of, setup_of,
  do_server-starts,
}
use c380_1code.Notapp.Wire.{take, drop, encode, decode}
use c380_1code.Notapp.Tests.Sockets.{read_all, stream}

-- a process is its files; those behind the last descriptor cannot be seen
abbrev Files : Type 0
Files = ℕ → Option File

abbrev seen : Files → ℕ → Option File
seen p j = if ltb j 8 then p j else none

is_free : Option File → Bool
is_free none = true
is_free (some f) = false

is_free-none : (o : Option File) → o ≢ none → is_free o ≡ false
unfolding is_free
is_free-none none h = absurd (h refl)
is_free-none (some f) h = refl

-- the lowest free descriptor from `i` on
lowest : (rounds i : ℕ) → Files → Option ℕ
unfolding is_free
lowest zero i p = none
lowest (suc rounds) i p =
    let rest = lowest rounds (i + 1) p in if is_free (p i) then some i else rest

lowest-found :
    (rounds k i : ℕ) (p : Files)
    → k ≤ i
    → i < k + rounds
    → p i ≡ none
    → ((j : ℕ) → j < i → p j ≢ none)
    → lowest rounds k p ≡ some i
unfolding lowest
lowest-found zero k i p le lt free full = absurd (omega (arith, le, lt))
lowest-found (suc rounds) k i p le lt free full = elim (Bool-cases (k == i)) [
  | inl here ↦ let e : k ≡ i = ground (arith, here) in rw (e, free) refl
  | inr apart ↦
      let more : lowest rounds (k + 1) p ≡ some i =
        lowest-found rounds (k + 1) i p (ground (arith, apart, le)) (omega (arith, lt)) free full in
      let taken = is_free-none (p k) (full k (ground (arith, apart, le))) in rw taken more
]

-- the descriptor for a file, and the process with it
put_lowest : File → Option ℕ → Files → Option ℕ × Files
put_lowest f none p = (none, p)
put_lowest f (some i) p = (some i, update p i (some f))

give : File → Files → Option ℕ × Files
unfolding put_lowest lowest
give f p = put_lowest f (lowest 8 0 (seen p)) p

give-Gains :
    (f : File) (p : Files) (i : ℕ)
    → i < 8
    → IsLowest (seen p) i
    → ((give f p).0 ≡ some i) × Gains (seen p) i f (seen (give f p).1)
unfolding give put_lowest
give-Gains f p i lt (free, full) =
    let found = lowest-found 8 0 i (seen p) (omega arith) (omega (arith, lt)) free full in
    let small : ltb i 8 ≡ true = ground (arith, lt) in
    let here : (i == i) ≡ true = ground arith in
    rw (found, put_lowest)
      (
        refl,
        (
          rw (small, here) refl,
          λ j h. let there : (j == i) ≡ false = ground (arith, h) in rw there refl,
        ),
      )

dup_of : Option File → Files → Files
unfolding give
dup_of none p = p
dup_of (some f) p = (give f p).1

dup_from : Option ℕ → Files → Files
unfolding dup_of
dup_from none p = p
dup_from (some k) p = dup_of (seen p k) p

abbrev close_file : ℕ → Files → Files
close_file i p = update p i none

seen-bounded : (p : Files) (i : ℕ) → 8 ≤ i → seen p i ≡ none
seen-bounded p i le = let e : ltb i 8 ≡ false = ground (arith, le) in rw e refl

seen-close_file : (i : ℕ) (p : Files) → seen (close_file i p) i ≡ none
seen-close_file i p =
    let here : (i == i) ≡ true = ground arith in
    elim (Bool-cases (ltb i 8)) [ inl e ↦ rw (e, here) refl | inr e ↦ rw e refl ]

close_file-keeps : (i j : ℕ) (p : Files) → j ≢ i → seen (close_file i p) j ≡ seen p j
close_file-keeps i j p h = let e : (j == i) ≡ false = ground (arith, h) in rw e refl

dup_from-Gains :
    (p : Files) (k i : ℕ) (f : File)
    → i < 8
    → seen p k ≡ some f
    → IsLowest (seen p) i
    → Gains (seen p) i f (seen (dup_from (some k) p))
unfolding dup_from dup_of
dup_from-Gains p k i f lt e low = rw (e, dup_of) (give-Gains f p i lt low).1

abbrev eight : Kernel Files
eight = record {
  descriptor = seen;
  is_daemon = λ p. false;
  getdtablesize = 8;
  setsid = λ p. p;
  close = close_file;
  open_null = give dev_null;
  dup = dup_from;
  umask = λ m p. p;
  ignore = λ s p. p;
  bounded = seen-bounded;
  setsid_keeps = λ p j. refl;
  closed = seen-close_file;
  close_keeps = close_file-keeps;
  opens = give-Gains dev_null;
  dups = dup_from-Gains;
  umask_keeps = λ m p j. refl;
  ignore_keeps = λ s p j. refl;
}

-- the files at the start: the standard ones, a socket at 4, and one more
abbrev at_start : Files
at_start j = if ltb j 6 then some (other j) else none

daemonize-descriptors_example :
    (eight.is_daemon at_start ≡ false
      → (q : Files) × (daemonize eight child child 4 at_start ≡ daemon q)
        × ((j : ℕ)
            → seen q j
              ≡ (if ltb j 3 then some dev_null else if j == 4 then seen at_start 4 else none))
        × ((second : Forked) → daemonize eight fork_failed second 4 at_start ≡ exited 1)
        × ((second : Forked) → daemonize eight parent second 4 at_start ≡ exited 0))
    × (eight.is_daemon at_start ≡ true
        → (first second : Forked) → daemonize eight first second 4 at_start ≡ daemon at_start)
daemonize-descriptors_example = daemonize-descriptors eight 4 at_start (omega arith) (omega arith)

-- an observer, a client that hangs up, one that is unknown, and a user
abbrev clients : List (ℕ × Client)
clients =
    (5, introduces intro_observer (1 ∷ 2 ∷ []))
    ∷ (6, hangs_up)
    ∷ (7, introduces 7 [])
    ∷ (8, introduces intro_user (3 ∷ []))
    ∷ []

abbrev arg : NotappArgs ℕ
arg = init_notapp_args ℕ 5 length

do_server-starts_example :
    (served : Files) × (do_server eight stream length arg
        (setup_of 4 (some 80))
        at_start
        (map (arrival_of []) clients)
      ≡ (
        if length arg.sport == 0 then some 80 else none,
        (
          taken_of clients,
          timer arg.interval ∷ sorter arg.logfile ∷ threads_of clients,
          serving served,
        ),
      ))
    × ((j : ℕ)
        → seen served j
          ≡ (if ltb j 3 then some dev_null else if j == 4 then seen at_start 4 else none))
do_server-starts_example =
    do_server-starts eight stream length arg 4 80 at_start [] clients (omega arith) (omega arith)
      refl (omega arith)

-- the thread of the first client is late: the two serve the same socket
abbrev late : Arrival
late = record (arrival_of [] (5, introduces intro_observer [])) { delay = 1 }

late_test :
    accept_loop {Float = ℕ} stream at_start
      (late ∷ arrival_of [] (8, introduces intro_user []) ∷ [])
    ≡ ((5, observer []) ∷ (8, user []) ∷ [], for_observer 8 ∷ for_user 8 ∷ [], serving at_start)
unfolding accept_loop serve_arrival add_taken add_threads thread_for read_socket accept_client
    after_id dispatch bytes_of read_all take drop encode decode accepted_socket
late_test = refl
