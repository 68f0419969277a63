-- ===== src/Notapp/ObserverClient/Events.antt =====
-- The file events of inotify, as they stand in the buffer of an observer client, and what the client
-- has to send for them. What the kernel does is that of inotify(7): a name ends with a NUL, and may
-- be followed by further bytes.
use c380_1code.Base.{ℕ, ◌+◌, ◌≤◌, Option, none, some, List, [], ◌∷◌, ◌++◌, length}
use c380_1code.Notapp.Args.{Str}
use c380_1code.Notapp.Wire.{Bytes, drop, overwrite, encode, buf_size}
use c380_1code.Notapp.Message.{ObserverMsg, notification, encode_msg}
use c380_1code.Notapp.ObserverClient.{Stamp, Chunk}

-- `name` is the name, and the bytes behind its NUL
pub record FileEvent : Type 0 where
  pub wd : ℕ
  pub mask : ℕ
  pub cookie : ℕ
  pub name : Option (Str × Bytes)

unfoldable pub name_bytes : Option (Str × Bytes) → Bytes
name_bytes none = []
name_bytes (some (text, padding)) = text ++ 0 ∷ padding

-- a `struct inotify_event` in memory
unfoldable pub event_bytes : FileEvent → Bytes
event_bytes e =
    encode 4 e.wd
    ++ (encode 4 e.mask
        ++ (encode 4 e.cookie ++ (encode 4 (length (name_bytes e.name)) ++ name_bytes e.name)))

unfoldable pub buffer_bytes : List FileEvent → Bytes
buffer_bytes [] = []
buffer_bytes (e ∷ es) = event_bytes e ++ buffer_bytes es

-- an event that is to be sent, when it is, and the byte that is sent behind its name
pub record Notice : Type 0 where
  pub stamp : Stamp
  pub event : FileEvent
  pub extra : ℕ

unfoldable pub message : Stamp → FileEvent → ObserverMsg
message stamp e = record {
  msg_type = notification;
  padding = stamp.padding;
  tv = stamp.time;
  wd = e.wd;
  mask = e.mask;
  cookie = e.cookie;
  len = length (name_bytes e.name);
}

unfoldable pub name_sent : Option (Str × Bytes) → (extra : ℕ) → Bytes
name_sent none extra = []
name_sent (some name) extra = name_bytes (some name) ++ extra ∷ []

unfoldable pub notice_bytes : Notice → Bytes
notice_bytes n = encode_msg (message n.stamp n.event) ++ name_sent n.event.name n.extra

unfoldable pub notices_bytes : List Notice → Bytes
notices_bytes [] = []
notices_bytes (n ∷ ns) = notice_bytes n ++ notices_bytes ns

unfoldable pub first : Bytes → ℕ
first [] = 0
first (b ∷ bs) = b

-- the notices for the events from a place of the buffer on; `after` is what stands behind them
unfoldable pub notices :
    (stamp : ℕ → Stamp) (place : ℕ) → List FileEvent → (after : Bytes) → List Notice
notices stamp place [] after = []
notices stamp place (e ∷ es) after =
    record { stamp = stamp place; event = e; extra = first (buffer_bytes es ++ after) }
    ∷ notices stamp (place + (16 + length (name_bytes e.name))) es after

-- a round of the client: what `read` gets from the kernel, or that it fails
pub record Report : Type 0 where
  pub wakeups : ℕ
  pub events : Option (List FileEvent)
  pub stamp : ℕ → Stamp

unfoldable pub event_chunk : Option (List FileEvent) → Option Bytes
event_chunk none = none
event_chunk (some es) = some (buffer_bytes es)

unfoldable pub chunk_of : Report → Chunk
chunk_of r = record { wakeups = r.wakeups; result = event_chunk r.events; stamp = r.stamp }

-- the notices of a round, and the buffer after it
unfoldable pub round_notices : (stamp : ℕ → Stamp) → Option (List FileEvent) → Bytes → List Notice
round_notices stamp none buffer = []
round_notices stamp (some es) buffer = notices stamp 0 es (drop (length (buffer_bytes es)) buffer)

unfoldable pub buffer_after : Option (List FileEvent) → Bytes → Bytes
buffer_after none buffer = buffer
buffer_after (some es) buffer = overwrite (buffer_bytes es) buffer

unfoldable pub all_notices : List Report → (buffer : Bytes) → List Notice
all_notices [] buffer = []
all_notices (r ∷ rs) buffer =
    round_notices r.stamp r.events buffer ++ all_notices rs (buffer_after r.events buffer)

-- `read` is asked for `buf_size` bytes
abbrev pub Fits : Option (List FileEvent) → Type 0
Fits none = Unit
Fits (some es) = length (buffer_bytes es) ≤ buf_size

-- `auto_kill` wakes up at most once in a round
abbrev pub IsTimely : Report → Type 0
IsTimely r = (r.wakeups ≤ 1) × Fits r.events
