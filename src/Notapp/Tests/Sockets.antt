-- ===== src/Notapp/Tests/Sockets.antt =====
-- What goes over a socket, at concrete inputs.
use c380_1code.Base.{
  List, ℕ, zero, suc, ◌≡◌, refl, true, Option, some, [], ◌∷◌, ◌++◌, map, length, arith,
}
use c380_1code.Notapp.Args.{Str}
use c380_1code.Notapp.ServerData.{Observers, Readers, Sent, send_entries}
use c380_1code.Notapp.Wire.{Bytes, take, drop, Socket, send_string, read_string}
use c380_1code.Notapp.Wire.Numbers.{take-append, drop-append}
use c380_1code.Notapp.Wire.Strings.{read_string-send_string}
use c380_1code.Notapp.UserClient.{Junk, closed, do_user_client}
use c380_1code.Notapp.UserClient.Shows.{wires, nonempty, ready}
use c380_1code.Notapp.ObserverThread.{user, accept_client}
use c380_1code.Notapp.UserThread.{initial_confirmation, waiting, left, user_thread}
use c380_1code.Notapp.UserThread.Talks.{
  successes, hangs_up, farewell, reports_of, end_of, last_words, with_readers, user_thread-serves,
  user_thread-do_user_client,
}

unfoldable pub read_all : ℕ → Bytes → Option (Bytes × Bytes)
read_all n bs = some (take n bs, drop n bs)

pub read_all-whole : (bs rest : Bytes) → read_all (length bs) (bs ++ rest) ≡ some (bs, rest)
unfolding read_all
read_all-whole bs rest = rw (take-append, drop-append) refl

pub read_all-closed : (n : ℕ) → read_all n [] ≡ some ([], [])
unfolding read_all take drop
read_all-closed zero = refl
read_all-closed (suc n) = refl

abbrev pub stream : Socket
stream = record { read = read_all; whole = read_all-whole; closed = read_all-closed }

-- "hi", and memory that held the disconnect code
abbrev hi : Str
hi = 104 ∷ 105 ∷ []

abbrev pub rubbish : Bytes
rubbish = 246 ∷ 255 ∷ 255 ∷ 255 ∷ []

read_string-send_string_example :
    read_string stream rubbish rubbish (send_string hi ++ 1 ∷ 2 ∷ []) ≡ (some hi, 1 ∷ 2 ∷ [])
read_string-send_string_example =
    read_string-send_string stream rubbish rubbish hi (1 ∷ 2 ∷ []) (omega arith) (omega arith)

abbrev moment : Observers
moment = record {
  observer_count = 1;
  entry_array_size = 1;
  entry_array = λ i. record { is_taken = true; tv_sec = 1; tv_usec = 2; string = hi };
}

abbrev pub nobody : Readers
nobody = record { reader_done_count = 0; reader_count = 0 }

abbrev pub dirty : ℕ → Junk
dirty i = record { count = rubbish; size = λ _. rubbish; string = λ _. rubbish }

user_thread-serves_example :
    user_thread stream
      ((moment, nobody) ∷ (moment, nobody) ∷ [])
      initial_confirmation
      (successes 1 ++ farewell hangs_up)
    ≡ (reports_of ((moment, nobody) ∷ []), left)
unfolding end_of
user_thread-serves_example =
    user_thread-serves stream ((moment, nobody) ∷ []) ((moment, nobody) ∷ []) initial_confirmation
      hangs_up

user_thread-do_user_client_example :
    (to_server bytes : Bytes) × (reports : List Sent) × (accept_client stream rubbish to_server
      ≡ user bytes)
    × (user_thread stream (with_readers nobody (moment ∷ [])) initial_confirmation bytes
        ≡ (reports, waiting last_words))
    × (do_user_client ready stream dirty 2 (wires reports)
        ≡ closed to_server (map (λ s. nonempty (send_entries s nobody).strings) (moment ∷ [])))
unfolding send_entries
user_thread-do_user_client_example =
    user_thread-do_user_client stream dirty rubbish (moment ∷ []) nobody (omega arith)
