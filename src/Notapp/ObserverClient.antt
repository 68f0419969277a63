-- ===== src/Notapp/ObserverClient.antt =====
-- Assignment02/observer_client.c: an observer client, from its connection to its end. The results of
-- the calls that connect it, the text of the host's address, what `read` gets from inotify, and
-- when the signal arrives are arguments; the signal that ends the
-- client arrives while it waits for `read`. `inotify_add_watch` and the messages of `perror` are not
-- modelled. A signal that `auto_kill` raises is handled on its own thread, whose jump into the main
-- thread's frame is undefined.
pub mod Events
pub mod Sends
pub mod Rounds
use c380_1code.Base.{
  ℕ, zero, suc, ◌+◌, ◌%◌, ◌^◌, Bool, true, false, Option, none, some, List, [], ◌∷◌, ◌++◌, ◌==◌,
  ltb, if◌then◌else◌, length,
}
use c380_1code.Notapp.Args.{Str}
use c380_1code.Notapp.Wire.{
  Bytes, take, drop, overwrite, field, encode, int_size, send_string, alert_activity, auto_kill,
}
use c380_1code.Notapp.Message.{
  Time, ObserverMsg, notification, encode_msg, new_disconnect_observer_message,
}
use c380_1code.Notapp.UserClient.{Setup, intro_observer}

-- `sizeof(struct inotify_event)`, without the name that ends it
abbrev pub event_struct_size : ℕ
event_struct_size = 16

abbrev pub event_buffer_size : ℕ
event_buffer_size = 2720

-- what `gettimeofday` gives, and what the padding of the message holds
pub record Stamp : Type 0 where
  pub time : Time
  pub padding : ℕ

-- the message for the event at the start of a memory
unfoldable pub event_message : Stamp → Bytes → ObserverMsg
event_message stamp event = record {
  msg_type = notification;
  padding = stamp.padding;
  tv = stamp.time;
  wd = field 0 4 event;
  mask = field 4 4 event;
  cookie = field 8 4 event;
  len = field 12 4 event;
}

-- the name and one byte more
unfoldable pub send_name : ℕ → Bytes → Bytes
send_name len event =
    if len == 0 then [] else take ((len + 1) % 2 ^ 32) (drop event_struct_size event)

unfoldable pub send_event : Stamp → Bytes → Bytes
send_event stamp event = let m = event_message stamp event in encode_msg m ++ send_name m.len event

unfoldable pub sends : Bytes → Option Bytes → Option Bytes
sends bs none = none
sends bs (some stream) = some (bs ++ stream)

-- the inner loop; `none` is a read in front of the buffer, or the end of the rounds given
pub process_events :
    (stamp : ℕ → Stamp) (buffer : Bytes) (bytes_read rounds bytes_processed : ℕ) → Option Bytes
process_events stamp buffer bytes_read zero bytes_processed = none
process_events stamp buffer bytes_read (suc rounds) bytes_processed =
    let event = drop bytes_processed buffer in
    let next = (bytes_processed + (event_struct_size + field 12 4 event)) % 2 ^ 32 in
    let rest = process_events stamp buffer bytes_read rounds next in
    if ltb bytes_processed bytes_read
    then if ltb next (2 ^ 31) then sends (send_event (stamp bytes_processed) event) rest else none
    else some []

-- a round of the outer loop: how often `auto_kill` wakes up before `read` returns, what `read` gets,
-- and the stamps of the events by their places in the buffer
pub record Chunk : Type 0 where
  pub wakeups : ℕ
  pub result : Option Bytes
  pub stamp : ℕ → Stamp

-- whether a signal is raised, and `is_dormant`
unfoldable pub wake : ℕ → Bool → Bool × Bool
wake zero is_dormant = (false, is_dormant)
wake (suc wakeups) is_dormant =
    let rest = wake wakeups (auto_kill is_dormant).1 in
    if (auto_kill is_dormant).0 then (true, (auto_kill is_dormant).1) else rest

unfoldable pub append_sent : Option Bytes → Option Bytes → Option Bytes
append_sent none rest = none
append_sent (some bs) rest = sends bs rest

-- what is done with the result of a `read`, and the rounds after it
unfoldable pub after_read :
    (stamp : ℕ → Stamp) → Option Bytes → (buffer : Bytes) → (Bytes → Option Bytes) → Option Bytes
unfolding process_events
after_read stamp none buffer next = next buffer
after_read stamp (some bytes) buffer next =
    append_sent
      (process_events stamp (overwrite bytes buffer) (length bytes) (suc (length bytes)) 0)
      (next (overwrite bytes buffer))

-- the outer loop until the signal arrives
pub listen : List Chunk → (buffer : Bytes) → (is_dormant : Bool) → Option Bytes
listen [] buffer is_dormant = some []
listen (chunk ∷ chunks) buffer is_dormant =
    let dormancy = wake chunk.wakeups (alert_activity is_dormant) in
    let next : Bytes → Option Bytes = λ memory. listen chunks memory dormancy.1 in
    if dormancy.0 then none else after_read chunk.stamp chunk.result buffer next

-- how the client ends, with what it has sent
pub data Ending : Type 0 where
  failed : Ending
  ended : (sent : Bytes) → Ending
  undefined : Ending

-- `cleanup` sends its message behind what has been sent
unfoldable pub cleanup : (junk : ObserverMsg) → Option Bytes → Ending
cleanup junk none = undefined
cleanup junk (some sent) = ended (sent ++ encode_msg (new_disconnect_observer_message junk))

-- the identity and the two texts
unfoldable pub introduction : (fileordir host : Str) → Bytes
introduction fileordir host =
    encode int_size intro_observer ++ (send_string fileordir ++ send_string host)

unfoldable pub do_observer_client :
    Setup
    → (has_inotify : Bool) → (fileordir host : Str) → List Chunk
    → (buffer : Bytes) → (junk : ObserverMsg) → Ending
unfolding listen
do_observer_client setup has_inotify fileordir host chunks buffer junk =
    if setup.has_socket
    then if setup.has_address
      then if setup.connected
        then if setup.jumped
          then cleanup junk (some [])
          else if has_inotify
          then cleanup junk (sends (introduction fileordir host) (listen chunks buffer false))
          else cleanup junk (some (introduction fileordir host))
        else failed
      else failed
    else failed
