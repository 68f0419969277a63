-- ===== src/Notapp/UserThread.antt =====
-- Assignment02/server.c: what the server's `user_thread` reads from its socket, and what it sends.
-- Each phase in which the server state is READING comes with the data that `send_entries` finds then;
-- the waiting for the phases, and the registration of the user, are in Notapp/Server.
pub mod Talks
use c380_1code.Base.{ℕ, Bool, ◌||◌, Option, none, some, List, [], ◌∷◌, ◌==◌, if◌then◌else◌, length}
use c380_1code.Notapp.ServerData.{Observers, Readers, Sent, send_entries}
use c380_1code.Notapp.Wire.{Bytes, overwrite, encode, int_size, Socket, is_disconnect}

-- `int confirmation = 1`
abbrev pub initial_confirmation : Bytes
initial_confirmation = encode int_size 1

-- what the read of the confirmation has shown: the client is gone, or the memory of `confirmation`
-- and what is left to read
pub data Confirmed : Type 0 where
  dead : Confirmed
  alive : (confirmation stream : Bytes) → Confirmed

unfoldable pub after_confirmation :
    (confirmation stream : Bytes) → Option (Bytes × Bytes) → Confirmed
after_confirmation confirmation stream none =
    if is_disconnect confirmation then dead else alive confirmation stream
after_confirmation confirmation stream (some (got, stream')) =
    let memory = overwrite got confirmation in
    if is_disconnect memory || (length got == 0) then dead else alive memory stream'

-- the thread waits for the next phase, or has left its loop
pub data UserEnd : Type 0 where
  waiting : (stream : Bytes) → UserEnd
  left : UserEnd

-- what the thread has sent in each phase, and where it is then
abbrev pub UserServed : Type 0
UserServed = List Sent × UserEnd

unfoldable pub add_sent : Sent → UserServed → UserServed
add_sent sent (reports, end) = (sent ∷ reports, end)

-- a phase after the read of the confirmation, and the phases after it
unfoldable pub serve_phase : Sent → (Bytes → Bytes → UserServed) → Confirmed → UserServed
serve_phase sent next dead = ([], left)
serve_phase sent next (alive confirmation stream) = add_sent sent (next confirmation stream)

-- the loop of `user_thread`
pub user_thread : Socket → List (Observers × Readers) → (confirmation stream : Bytes) → UserServed
user_thread socket [] confirmation stream = ([], waiting stream)
user_thread socket ((s, d) ∷ phases) confirmation stream =
    serve_phase (send_entries s d) (user_thread socket phases)
      (after_confirmation confirmation stream (socket.read int_size stream))
