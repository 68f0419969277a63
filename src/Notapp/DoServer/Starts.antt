-- ===== src/Notapp/DoServer/Starts.antt =====
-- Which threads the server starts.
use c380_1code.Base.{
  Bool-cases, inl, inr, ℕ, ◌^◌, ◌<◌, ◌≡◌, refl, ap, ◌∙◌, true, false, Option, none, some, List, [],
  ◌∷◌, ◌++◌, map, ◌==◌, ltb, if◌then◌else◌, length, All, arith,
}
use c380_1code.Notapp.Args.{Str, NotappArgs}
use c380_1code.Notapp.Wire.{Bytes, Socket, take, decode, encode, int_size}
use c380_1code.Notapp.Wire.Numbers.{length-encode, decode-encode}
use c380_1code.Notapp.Wire.Strings.{get-whole, get-take}
use c380_1code.Notapp.UserClient.{intro_observer, intro_user}
use c380_1code.Notapp.ObserverThread.{
  Accepted, ignored, observer, user, unknown, dispatch, after_id, accept_client,
}
use c380_1code.Notapp.Daemon.{dev_null, Kernel, child}
use c380_1code.Notapp.Daemon.Descriptors.{daemonize-descriptors}
use c380_1code.Notapp.DoServer.{
  add_taken, read_socket, Thread, timer, sorter, for_observer, for_user, serving, Arrival,
  thread_for, add_threads, serve_arrival, accept_loop, ServerSetup, report_port, start_threads,
  run_bound, do_server,
}

-- what a client sends: an identity and what follows it, or nothing
pub data Client : Type 0 where
  introduces : (id : ℕ) (rest : Bytes) → Client
  hangs_up : Client

unfoldable pub bytes_of : Client → Bytes
bytes_of (introduces id rest) = encode int_size id ++ rest
bytes_of hangs_up = []

-- what the server is meant to read of it
unfoldable pub meant_for : Client → Accepted
meant_for (introduces id rest) =
    if id == intro_observer then observer rest else if id == intro_user then user rest else unknown
meant_for hangs_up = ignored

-- each socket with what is read of its client
pub taken_of : List (ℕ × Client) → List (ℕ × Accepted)
taken_of [] = []
taken_of ((fd, c) ∷ clients) = (fd, meant_for c) ∷ taken_of clients

-- the thread that the client is meant to get, on its own socket
unfoldable pub own_thread : {Float : Type 0} → ℕ × Client → List (Thread Float)
own_thread (fd, introduces id rest) =
    if id == intro_observer
    then for_observer fd ∷ []
    else if id == intro_user
    then for_user fd ∷ []
    else []
own_thread (fd, hangs_up) = []

pub threads_of : {Float : Type 0} → List (ℕ × Client) → List (Thread Float)
threads_of [] = []
threads_of (c ∷ clients) = own_thread c ++ threads_of clients

-- an identity is an `int`
abbrev pub IsId : ℕ × Client → Type 0
IsId (fd, introduces id rest) = id < 2 ^ 32
IsId (fd, hangs_up) = Unit

-- the thread reads its socket before the next round
abbrev pub arrival_of : (junk : Bytes) → ℕ × Client → Arrival
arrival_of junk (fd, c) = record {
  listens = true;
  accepted = some (record { descriptor = fd; stream = bytes_of c });
  junk = junk;
  delay = 0;
}

accept_client-dispatch :
    (socket : Socket) (junk rest : Bytes) (id : ℕ)
    → id < 2 ^ 32
    → accept_client socket junk (encode int_size id ++ rest) ≡ dispatch id rest
unfolding accept_client after_id
accept_client-dispatch socket junk rest id h =
    let code = encode int_size id in
    let four = length-encode 4 id in
    let got = get-whole socket int_size code rest four in
    let some_bytes : (length (encode int_size id) == 0) ≡ false = ground (arith, four) in
    let value : decode (take int_size (code ++ junk)) ≡ id =
      ap decode (get-take int_size code junk four) ∙ decode-encode 4 id (omega (arith, h)) in
    rw (got, some_bytes, value, after_id) refl

accept_client-meant_for :
    (socket : Socket) (junk : Bytes) (fd : ℕ) (c : Client)
    → IsId (fd, c)
    → accept_client socket junk (bytes_of c) ≡ meant_for c
unfolding accept_client after_id bytes_of meant_for dispatch
accept_client-meant_for socket junk fd (introduces id rest) h =
    accept_client-dispatch socket junk rest id h
accept_client-meant_for socket junk fd hangs_up h = rw (socket.closed int_size, after_id) refl

thread_for-own_thread :
    {Float : Type 0} (fd : ℕ) (c : Client)
    → thread_for {Float = Float} fd (meant_for c) ≡ own_thread (fd, c)
unfolding thread_for meant_for own_thread
thread_for-own_thread fd (introduces id rest) = elim (Bool-cases (id == intro_observer)) [
  | inl e ↦ rw e refl
  | inr e ↦ elim (Bool-cases (id == intro_user)) [ inl q ↦ rw (e, q) refl | inr q ↦ rw (e, q) refl ]
]
thread_for-own_thread fd hangs_up = refl

accept_loop-threads :
    {Float P : Type 0} (socket : Socket) (process : P) (junk : Bytes) (clients : List (ℕ × Client))
    → All IsId clients
    → accept_loop {Float = Float} socket process (map (arrival_of junk) clients)
      ≡ (taken_of clients, threads_of clients, serving process)
unfolding accept_loop taken_of threads_of serve_arrival read_socket add_threads add_taken
accept_loop-threads socket process junk [] h = refl
accept_loop-threads {Float} socket process junk ((fd, c) ∷ clients) (id, ids) =
    let meant = accept_client-meant_for socket junk fd c id in
    rw
      (
        meant,
        thread_for-own_thread {Float = Float} fd c,
        accept_loop-threads {Float = Float} socket process junk clients ids,
      )
      refl

-- the calls before the loop succeed, in the process that goes on as the daemon
abbrev pub setup_of : (sock : ℕ) → Option ℕ → ServerSetup
setup_of sock named = record {
  server_fd = some sock;
  bound = true;
  jumped = false;
  named = named;
  first = child;
  second = child;
}

-- If the calls before its loop succeed, its socket is none of the three standard descriptors, all
-- clients are accepted, each of which sends an identity or hangs up at once, and each thread reads
-- `new_socket` before the next client is accepted: `do_server` starts the timer with the interval and
-- the sorter with the logfile of its arguments. Then it starts, in the order of the clients, a thread
-- for each observer and each user, on the socket of this client, and none for any other client; it has
-- read the identity from each socket, and leaves what follows; and it goes on serving. It serves as a
-- daemon that holds the null device at the standard descriptors, its socket, and no other file. It
-- has printed the port of the socket exactly if the arguments gave the port 0.
pub do_server-starts :
    {Float P : Type 0} (kernel : Kernel P) (socket : Socket) (atoi : Str → ℕ)
    (arg : NotappArgs Float) (sock : ℕ) (port : ℕ) (process : P) (junk : Bytes)
    (clients : List (ℕ × Client))
    → 2 < sock
    → 2 < kernel.getdtablesize
    → kernel.is_daemon process ≡ false
    → All IsId clients
    → (served : P) × (do_server kernel socket atoi arg
          (setup_of sock (some port))
          process
          (map (arrival_of junk) clients)
        ≡ (
          if atoi arg.sport == 0 then some port else none,
          (
            taken_of clients,
            timer arg.interval ∷ sorter arg.logfile ∷ threads_of clients,
            serving served,
          ),
        ))
      × ((j : ℕ)
          → kernel.descriptor served j ≡ (
              if ltb j 3
              then some dev_null
              else if j == sock
              then kernel.descriptor process sock
              else none))
unfolding do_server run_bound start_threads report_port add_threads
do_server-starts kernel socket atoi arg sock port process junk clients apart room new ids =
    let (served, e, files, _, _) = (daemonize-descriptors kernel sock process apart room).0 new in
    let proper : (sock == 0) ≡ false = ground (arith, apart) in
    (
      served,
      rw (proper, e, accept_loop-threads socket served junk clients ids, start_threads) refl,
      files,
    )
