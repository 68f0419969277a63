-- ===== src/Notapp/ObserverThread.antt =====
-- Assignment02/server.c: what the server's `observer_thread` reads from its socket and makes of it,
-- and how `do_server` takes a new connection. The entries that the thread gives to `add_entry` are
-- the result here; their way into the shared array is in Notapp/Server. A text that does not fit its
-- buffer makes the behaviour undefined.
pub mod Receives
pub mod RoundTrip
use c380_1code.Base.{
  ℕ, zero, suc, ◌+◌, ◌-◌, ◌/◌, ◌%◌, ◌^◌, Bool, true, false, ◌||◌, Option, none, some, List, [], ◌∷◌,
  ◌++◌, ◌==◌, ltb, if◌then◌else◌, length, codes,
}
use c380_1code.Notapp.Args.{Str}
use c380_1code.Notapp.ServerData.{UserEntry}
use c380_1code.Notapp.Server.{clean_entry}
use c380_1code.Notapp.Wire.{
  Bytes, take, drop, overwrite, decode, int_size, buf_size, Socket, is_disconnect, c_string,
  read_string,
}
use c380_1code.Notapp.Message.{
  Time, ObserverMsg, disconnection_observer, observer_msg_size, decode_msg,
}
use c380_1code.Notapp.EventText.{Flag, make_entry}
use c380_1code.Notapp.UserClient.{intro_observer, intro_user}

-- how the thread's reading ends: the connection is over, the behaviour is undefined, or the rounds
-- given have run out
pub data End : Type 0 where
  over : End
  undefined : End
  running : End

-- the entries for `add_entry`, in order, and the end
abbrev pub Served : Type 0
Served = List UserEntry × End

unfoldable pub add_served : Option UserEntry → Served → Served
add_served none rest = ([], undefined)
add_served (some entry) (entries, end) = (entry ∷ entries, end)

-- what a round of the loop has read
pub data Reading : Type 0 where
  stop : Reading
  overflow : Reading
  event : (m : ObserverMsg) (name : Option Str) (event_loc : Bytes) (stream : Bytes) → Reading

-- after the read of the name, into `event_loc`, of `count` bytes
unfoldable pub check_name : ObserverMsg → (count : ℕ) → (event_loc : Bytes) → Bytes → Reading
check_name m count event_loc stream =
    if is_disconnect event_loc || (count == 0)
    then stop
    else event m (some (c_string event_loc)) event_loc stream

module _ (socket : Socket) where
  -- the read of the name; after a failed one the loop goes on
  unfoldable pub read_name : ObserverMsg → (event_loc : Bytes) → Bytes → Reading
  read_name m event_loc stream =
      if m.len == 0
      then event m none (0 ∷ drop 1 event_loc) stream
      else elim (socket.read ((m.len + 1) % 2 ^ 32) stream) [
        | none ↦
            if is_disconnect event_loc
            then stop
            else event m (some (c_string event_loc)) event_loc stream
        | some (got, stream') ↦
            (if ltb buf_size (length got)
              then overflow
              else check_name m (length got) (overwrite got event_loc) stream')
      ]

  -- what the read of a message has got; `junk` is what the message's memory held before
  unfoldable pub after_message :
      (junk : Bytes) → (event_loc : Bytes) → Option (Bytes × Bytes) → Reading
  unfolding read_name
  after_message junk event_loc none = stop
  after_message junk event_loc (some (got, stream)) =
      let m = decode_msg (got ++ junk) in
      if (m.msg_type == disconnection_observer) || (length got == 0)
      then stop
      else read_name m event_loc stream

  unfoldable pub read_event : (junk : Bytes) → (event_loc : Bytes) → Bytes → Reading
  unfolding after_message
  read_event junk event_loc stream =
      after_message junk event_loc (socket.read observer_msg_size stream)

-- what the thread has in a round: its clock, if it is built with NOTAPP_TIME, and the memory where
-- the message goes
pub record Reception : Type 0 where
  pub clock : Option Time
  pub junk : Bytes

unfoldable pub time_of : Option Time → ObserverMsg → Time
time_of none m = m.tv
time_of (some now) m = now

module _ (bit : Flag → ℕ) (socket : Socket) (host monitored : Str) where
  -- an event that has been read, and the rounds after it
  unfoldable pub serve_event : Option Time → (Bytes → Bytes → Served) → Reading → Served
  serve_event clock next stop = ([], over)
  serve_event clock next overflow = ([], undefined)
  serve_event clock next (event m name event_loc stream) =
      add_served (make_entry bit host monitored (time_of clock m) name m.mask)
        (next event_loc stream)

  -- the loop of `observer_thread`
  pub serve_events : List Reception → (event_loc : Bytes) → Bytes → Served
  serve_events [] event_loc stream = ([], running)
  serve_events (round ∷ rounds) event_loc stream =
      serve_event round.clock (serve_events rounds) (read_event socket round.junk event_loc stream)

-- what memory held before the two texts were read into it
pub record TextJunk : Type 0 where
  pub size : Bytes
  pub string : Bytes

-- `char host[17]`
abbrev pub host_size : ℕ
host_size = 17

module _ (bit : Flag → ℕ) (socket : Socket) (index : Option ℕ) (rounds : List Reception) where
  -- with both texts; `index` is what `register_observer` has given. Without one the first entry goes
  -- to `add_entry` all the same, which is a fault there.
  unfoldable pub serve_from : (host monitored : Str) → (event_loc : Bytes) → Bytes → Served
  unfolding serve_events
  serve_from host monitored event_loc stream =
      let served = serve_events bit socket host monitored rounds event_loc stream in
      if ltb (length host) host_size
      then add_served (some clean_entry) (elim index [ none ↦ ([], over) | some i ↦ served ])
      else ([], undefined)

  unfoldable pub with_host : (monitored : Str) → (event_loc : Bytes) → Option Str × Bytes → Served
  with_host monitored event_loc (none, stream) = ([], undefined)
  with_host monitored event_loc (some host, stream) = serve_from host monitored event_loc stream

  unfoldable pub with_monitored :
      (junk : TextJunk) → (event_loc : Bytes) → Option Str × Bytes → Served
  with_monitored junk event_loc (none, stream) = ([], undefined)
  with_monitored junk event_loc (some monitored, stream) =
      if ltb (length monitored) buf_size
      then with_host monitored event_loc (read_string socket junk.size junk.string stream)
      else ([], undefined)

  unfoldable pub observer_thread :
      (monitored_junk host_junk : TextJunk) → (event_loc : Bytes) → Bytes → Served
  observer_thread monitored_junk host_junk event_loc stream =
      with_monitored host_junk event_loc
        (read_string socket monitored_junk.size monitored_junk.string stream)

-- which thread `do_server` starts for a connection, with what is left to read
pub data Accepted : Type 0 where
  ignored : Accepted
  observer : (stream : Bytes) → Accepted
  user : (stream : Bytes) → Accepted
  unknown : Accepted

unfoldable pub dispatch : (client_id : ℕ) → Bytes → Accepted
dispatch client_id stream =
    if client_id == intro_observer
    then observer stream
    else if client_id == intro_user
    then user stream
    else unknown

-- what the read of the identity has got; `junk` is what `client_id` held before
unfoldable pub after_id : (junk stream : Bytes) → Option (Bytes × Bytes) → Accepted
after_id junk stream none = dispatch (decode (take int_size junk)) stream
after_id junk stream (some (got, stream')) =
    if length got == 0 then ignored else dispatch (decode (take int_size (got ++ junk))) stream'

-- a round of the loop of `do_server` after `accept`
unfoldable pub accept_client : Socket → (junk : Bytes) → Bytes → Accepted
accept_client socket junk stream = after_id junk stream (socket.read int_size stream)
