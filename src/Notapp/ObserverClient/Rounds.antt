-- ===== src/Notapp/ObserverClient/Rounds.antt =====
-- What an observer client sends from its start to its end.
use mathlib.Core.List.{append_assoc}
use c380_1code.Base.{
  ℕ, zero, suc, ◌≤◌, ◌≡◌, refl, sym, ◌∙◌, Bool, true, false, Option, none, some, List, [], ◌∷◌,
  ◌++◌, map, length, length-append, All, arith,
}
use c380_1code.Notapp.Args.{Str}
use c380_1code.Notapp.Wire.{Bytes, drop, overwrite, buf_size, alert_activity, auto_kill}
use c380_1code.Notapp.Wire.Numbers.{length-drop}
use c380_1code.Notapp.Message.{ObserverMsg, encode_msg, new_disconnect_observer_message}
use c380_1code.Notapp.UserClient.Shows.{ready}
use c380_1code.Notapp.ObserverClient.{
  event_buffer_size, sends, process_events, wake, append_sent, after_read, listen, ended, cleanup,
  introduction, do_observer_client, Stamp,
}
use c380_1code.Notapp.ObserverClient.Events.{
  FileEvent, buffer_bytes, Notice, notices, notices_bytes, Report, event_chunk, chunk_of,
  round_notices, buffer_after, all_notices, Fits, IsTimely,
}
use c380_1code.Notapp.ObserverClient.Sends.{IsEvent, process_events-notices}

-- the events that `read` gets
abbrev pub AreEvents : Option (List FileEvent) → Type 0
AreEvents none = Unit
AreEvents (some es) = All IsEvent es

-- what the kernel and the clock do in a round
abbrev pub IsRound : Report → Type 0
IsRound r = IsTimely r × AreEvents r.events

notices_bytes-append :
    (ms ns : List Notice) → notices_bytes (ms ++ ns) ≡ notices_bytes ms ++ notices_bytes ns
unfolding notices_bytes
notices_bytes-append [] ns = refl
notices_bytes-append (m ∷ ms) ns =
    rw (notices_bytes-append ms ns) (sym (append_assoc _ (notices_bytes ms) (notices_bytes ns)))

-- a thread that wakes up once finds `is_dormant` false
wake-timely :
    (wakeups : ℕ) (is_dormant : Bool)
    → wakeups ≤ 1
    → (wake wakeups (alert_activity is_dormant)).0 ≡ false
unfolding wake alert_activity auto_kill
wake-timely zero d h = refl
wake-timely (suc zero) d h = refl
wake-timely (suc (suc n)) d h = absurd (omega (arith, h))

length-overwrite :
    (bs memory : Bytes) → length bs ≤ length memory → length (overwrite bs memory) ≡ length memory
unfolding overwrite
length-overwrite bs memory h =
    omega (arith, length-append bs (drop (length bs) memory), length-drop (length bs) memory, h)

length-buffer_after :
    (events : Option (List FileEvent)) (buffer : Bytes)
    → Fits events
    → length buffer ≡ event_buffer_size
    → length (buffer_after events buffer) ≡ event_buffer_size
unfolding buffer_after
length-buffer_after none buffer fits size = size
length-buffer_after (some es) buffer fits size =
    length-overwrite (buffer_bytes es) buffer (omega (arith, fits, size)) ∙ size

-- the inner loop on what one `read` has got
read_events :
    (stamp : ℕ → Stamp) (es : List FileEvent) (buffer : Bytes)
    → length (buffer_bytes es) ≤ buf_size
    → length buffer ≡ event_buffer_size
    → All IsEvent es
    → process_events stamp
        (overwrite (buffer_bytes es) buffer)
        (length (buffer_bytes es))
        (suc (length (buffer_bytes es)))
        0
      ≡ some (notices_bytes (notices stamp 0 es (drop (length (buffer_bytes es)) buffer)))
unfolding overwrite drop
read_events stamp es buffer fits size ok =
    let rest = length-drop (length (buffer_bytes es)) buffer in
    process_events-notices stamp (overwrite (buffer_bytes es) buffer)
      (drop (length (buffer_bytes es)) buffer) (length (buffer_bytes es))
      (suc (length (buffer_bytes es))) 0 es refl (omega arith) fits
      (omega (arith, fits, size, rest)) (omega arith) ok

after_read-notices :
    (stamp : ℕ → Stamp) (events : Option (List FileEvent)) (buffer sent : Bytes)
    (next : Bytes → Option Bytes)
    → Fits events
    → length buffer ≡ event_buffer_size
    → AreEvents events
    → next (buffer_after events buffer) ≡ some sent
    → after_read stamp (event_chunk events) buffer next
      ≡ some (notices_bytes (round_notices stamp events buffer) ++ sent)
unfolding after_read event_chunk round_notices buffer_after notices_bytes append_sent sends
after_read-notices stamp none buffer sent next fits size ok e = e
after_read-notices stamp (some es) buffer sent next fits size ok e =
    rw (read_events stamp es buffer fits size ok, e) refl

-- the outer loop sends the notices of all rounds
listen-notices :
    (rs : List Report) (buffer : Bytes) (is_dormant : Bool)
    → length buffer ≡ event_buffer_size
    → All IsRound rs
    → listen (map chunk_of rs) buffer is_dormant ≡ some (notices_bytes (all_notices rs buffer))
unfolding listen all_notices notices_bytes chunk_of
listen-notices [] buffer d size h = refl
listen-notices (r ∷ rs) buffer d size (((timely, fits), events), h) =
    let dormancy = wake r.wakeups (alert_activity d) in
    let rest =
      listen-notices rs (buffer_after r.events buffer) dormancy.1
        (length-buffer_after r.events buffer fits size) h in
    rw
      (
        wake-timely r.wakeups d timely,
        notices_bytes-append (round_notices r.stamp r.events buffer)
            (all_notices rs (buffer_after r.events buffer)),
      )
      (after_read-notices r.stamp r.events buffer
        (notices_bytes (all_notices rs (buffer_after r.events buffer)))
        (λ memory. listen (map chunk_of rs) memory dormancy.1) fits size events rest)

-- A client that gets its socket, the server's address, the connection and inotify sends its
-- identity, the monitored path, the host, a message and the name for each event that it reads, in
-- their order, and at last the message of its disconnection, if each `read` gets whole events of at
-- most 1024 bytes and `auto_kill` wakes up at most once in a round of the loop. Each inner loop ends.
pub do_observer_client-sends :
    (fileordir host : Str) (rs : List Report) (buffer : Bytes) (junk : ObserverMsg)
    → length buffer ≡ event_buffer_size
    → All IsRound rs
    → do_observer_client ready true fileordir host (map chunk_of rs) buffer junk
      ≡ ended (
          (introduction fileordir host ++ notices_bytes (all_notices rs buffer))
          ++ encode_msg (new_disconnect_observer_message junk))
unfolding do_observer_client cleanup sends
do_observer_client-sends fileordir host rs buffer junk size h =
    rw (listen-notices rs buffer false size h) refl
