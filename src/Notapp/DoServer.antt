-- ===== src/Notapp/DoServer.antt =====
-- Assignment02/server.c: `do_server`, from its socket to the threads that it starts. The results of
-- the system calls are arguments; `atoi` is not part of the repository, it is a parameter. A thread
-- is given the address of the one variable `new_socket` and reads its socket from there, at the end of
-- the round that started it or of a later one. The messages about errors and the system's log are
-- not modelled.
pub mod Starts
use c380_1code.Base.{
  zero, suc, ℕ, Bool, Option, none, some, List, [], ◌∷◌, ◌++◌, ◌==◌, if◌then◌else◌,
}
use c380_1code.Notapp.Args.{Str, NotappArgs}
use c380_1code.Notapp.Wire.{Bytes, Socket}
use c380_1code.Notapp.ObserverThread.{Accepted, ignored, observer, user, unknown, accept_client}
use c380_1code.Notapp.Daemon.{Kernel, Forked, Daemonized, exited, daemon, daemonize}

-- the threads, with what they are given
pub data Thread (Float : Type 0) : Type 0 where
  timer : (interval : Float) → Thread Float
  sorter : (logfile : Option Str) → Thread Float
  for_observer : (socket : ℕ) → Thread Float
  for_user : (socket : ℕ) → Thread Float

-- how the process ends; `serving` is no end: it waits for the next client
pub data ServerEnd (P : Type 0) : Type 0 where
  no_socket : ServerEnd P
  exit_with : (status : ℕ) → ServerEnd P
  serving : P → ServerEnd P

-- what the server has read from the sockets, the threads that it has started, in order, each with the
-- socket that it serves, and the end
abbrev pub Served : (Float P : Type 0) → Type 0
Served Float P = List (ℕ × Accepted) × List (Thread Float) × ServerEnd P

-- a socket, and what its client sends
pub record Connection : Type 0 where
  pub descriptor : ℕ
  pub stream : Bytes

-- the results of `listen` and `accept`; `junk` is what `client_id` held, and `delay` how many more
-- rounds there are before the thread of this one reads `new_socket`
pub record Arrival : Type 0 where
  pub listens : Bool
  pub accepted : Option Connection
  pub junk : Bytes
  pub delay : ℕ

-- `new_socket` after the calls of a round
unfoldable pub accepted_socket : Option Connection → ℕ → ℕ
accepted_socket none new_socket = new_socket
accepted_socket (some c) new_socket = c.descriptor

-- `new_socket` when it is read `delay` rounds later
unfoldable pub read_socket : (delay new_socket : ℕ) → List Arrival → ℕ
unfolding accepted_socket
read_socket zero new_socket arrivals = new_socket
read_socket (suc delay) new_socket [] = new_socket
read_socket (suc delay) new_socket (a ∷ arrivals) =
    read_socket delay (accepted_socket a.accepted new_socket) arrivals

-- the thread for a client, with the socket that it reads
unfoldable pub thread_for : {Float : Type 0} → (socket : ℕ) → Accepted → List (Thread Float)
thread_for socket ignored = []
thread_for socket (observer stream) = for_observer socket ∷ []
thread_for socket (user stream) = for_user socket ∷ []
thread_for socket unknown = []

unfoldable pub add_threads :
    {Float P : Type 0} → List (Thread Float) → Served Float P → Served Float P
add_threads threads (taken, later, end) = (taken, threads ++ later, end)

unfoldable pub add_taken : {Float P : Type 0} → ℕ × Accepted → Served Float P → Served Float P
add_taken client (taken, threads, end) = (client ∷ taken, threads, end)

module _ {Float P : Type 0} (socket : Socket) (process : P) where
  -- a client that is accepted or not, and the rounds after it
  unfoldable pub serve_arrival :
      (junk : Bytes)
      → (delay : ℕ) → List Arrival
      → Served Float P
      → Option Connection
      → Served Float P
  unfolding read_socket
  serve_arrival junk delay arrivals next none = ([], [], exit_with 1)
  serve_arrival junk delay arrivals next (some c) =
      let client = accept_client socket junk c.stream in
      add_taken (c.descriptor, client)
        (add_threads (thread_for (read_socket delay c.descriptor arrivals) client) next)

  -- the loop of `do_server`
  unfoldable pub accept_loop : List Arrival → Served Float P
  accept_loop [] = ([], [], serving process)
  accept_loop (a ∷ arrivals) =
      let next = accept_loop arrivals in
      if a.listens
      then serve_arrival a.junk a.delay arrivals next a.accepted
      else ([], [], exit_with 1)

-- the results of the calls before the loop: the descriptor of `socket`, or -1; whether `bind`
-- succeeds; `jumped` is `jump_val` where it is tested; the port of `getsockname`, or -1
pub record ServerSetup : Type 0 where
  pub server_fd : Option ℕ
  pub bound : Bool
  pub jumped : Bool
  pub named : Option ℕ
  pub first : Forked
  pub second : Forked

-- the port that is printed
unfoldable pub report_port : (sport : ℕ) → Option ℕ → Option ℕ
report_port sport named = if sport == 0 then named else none

module _ {Float P : Type 0} (kernel : Kernel P) (socket : Socket) where
  -- the two threads of the server, and the loop
  unfoldable pub start_threads : NotappArgs Float → List Arrival → Daemonized P → Served Float P
  unfolding accept_loop
  start_threads arg arrivals (exited status) = ([], [], exit_with status)
  start_threads arg arrivals (daemon process) =
      add_threads (timer arg.interval ∷ sorter arg.logfile ∷ [])
        (accept_loop socket process arrivals)

  -- with a bound socket: the port that is printed, and the threads
  unfoldable pub run_bound :
      (sport : ℕ)
      → (sock : ℕ) → NotappArgs Float
      → ServerSetup
      → P
      → List Arrival
      → Option ℕ × Served Float P
  run_bound sport sock arg setup process arrivals =
      if setup.jumped then (none, ([], [], exit_with 0)) else (
        report_port sport setup.named,
        start_threads arg arrivals (daemonize kernel setup.first setup.second sock process),
      )

  -- a socket that is 0 is taken for a failure; with -1, `bind` fails
  unfoldable pub do_server :
      (atoi : Str → ℕ)
      → NotappArgs Float
      → ServerSetup
      → P
      → List Arrival
      → Option ℕ × Served Float P
  do_server atoi arg setup process arrivals = elim setup.server_fd [
    | none ↦ (none, ([], [], exit_with 1))
    | some sock ↦
        (if sock == 0
          then (none, ([], [], no_socket))
          else if setup.bound
          then run_bound (atoi arg.sport) sock arg setup process arrivals
          else (none, ([], [], exit_with 1)))
  ]
