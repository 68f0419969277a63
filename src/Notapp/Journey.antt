-- ===== src/Notapp/Journey.antt =====
-- The whole way of a file event: observer_client.c, the threads of server.c over server_data.c, and
-- user_client.c.
use c380_1code.Base.{
  ℕ, ◌<◌, ◌≡◌, refl, ap, ◌∙◌, Bool, true, some, List, [], ◌∷◌, ◌++◌, map, length, All, arith,
}
use c380_1code.Notapp.Args.{Str}
use c380_1code.Notapp.ServerData.{UserEntry, Qsort, Sent, send_entries}
use c380_1code.Notapp.ServerData.Sorting.{IsQsort}
use c380_1code.Notapp.Server.{System, clean_entry, reading, run, start}
use c380_1code.Notapp.Server.Delivery.{lifecycle, last_text, lifecycle-send_entries}
use c380_1code.Notapp.Wire.{Bytes, encode, int_size, buf_size, Socket}
use c380_1code.Notapp.Wire.Strings.{IsAscii}
use c380_1code.Notapp.Message.{ObserverMsg}
use c380_1code.Notapp.EventText.{Flag}
use c380_1code.Notapp.UserClient.{Junk, closed, do_user_client, intro_user}
use c380_1code.Notapp.UserClient.Shows.{
  wires, nonempty, IsSendable, confirmations, ready, do_user_client-shows,
}
use c380_1code.Notapp.ObserverClient.{event_buffer_size, ended, do_observer_client}
use c380_1code.Notapp.ObserverClient.Events.{Report, chunk_of, all_notices}
use c380_1code.Notapp.ObserverClient.Rounds.{IsRound}
use c380_1code.Notapp.ObserverThread.{
  Reception, TextJunk, observer, accept_client, add_served, observer_thread, host_size,
}
use c380_1code.Notapp.ObserverThread.Receives.{entries}
use c380_1code.Notapp.ObserverThread.RoundTrip.{IsReadable, observer_thread-do_observer_client}

module _ (qsort : Qsort) (logfile : Bool) where
  abbrev pub after_lifecycle : List UserEntry → System
  after_lifecycle es = run qsort logfile (lifecycle es) start

  abbrev pub report_after : List UserEntry → Sent
  report_after es = send_entries (after_lifecycle es).observers (after_lifecycle es).readers

  -- the user client shows the last text
  do_user_client-last_text :
      (socket : Socket) (junk : ℕ → Junk) (es : List UserEntry)
      → IsQsort qsort
      → IsSendable (last_text [] es)
      → do_user_client ready socket junk 2 (wires (report_after es ∷ []))
        ≡ closed
            (encode int_size intro_user ++ confirmations 1)
            (nonempty (last_text [] es ∷ []) ∷ [])
  unfolding send_entries
  do_user_client-last_text socket junk es q ok =
      let (there, sent) = lifecycle-send_entries qsort logfile es q in
      let s = after_lifecycle es in
      let count = ap (λ r. r.count) sent in
      let strings = ap (λ r. r.strings) sent in
      do_user_client-shows socket junk (s.observers ∷ []) s.readers
        ((omega (arith, count), rw strings (ok, tt)), tt)
      ∙ rw strings refl

-- An observer client that gets all it needs sends the events that it reads from inotify to the
-- server, which starts a thread for it. The thread makes the entry without a text and `entries`,
-- which are those of the events, in their order, up to the first whose text does not fit its
-- buffer. On a new server this thread adds them, each without interruption, the timer expires, and
-- `output_sorter` gets to READING, with a `qsort` that keeps its promise. A user client that then
-- gets what `send_entries` sends, until the server closes the connection, shows the text of the
-- last of the entries, or nothing if there is none. The texts are ASCII, the path is shorter than
-- 1024 characters and the host shorter than 17, each `read` of the observer client gets whole
-- events of at most 1024 bytes, `auto_kill` wakes up at most once in a round, the numbers are those
-- of their types, and the text of the last entry is shorter than 2 ^ 32 - 11.
pub do_observer_client-do_user_client :
    (bit : Flag → ℕ) (socket : Socket) (id_junk : Bytes) (monitored_junk host_junk : TextJunk)
    (fileordir host : Str) (rs : List Report) (buffer event_loc : Bytes) (last : ObserverMsg)
    (rounds : List Reception) (qsort : Qsort) (logfile : Bool) (user_junk : ℕ → Junk)
    → IsAscii fileordir × (length fileordir < buf_size)
    → IsAscii host × (length host < host_size)
    → length buffer ≡ event_buffer_size
    → All IsRound rs
    → All IsReadable rs
    → length (all_notices rs buffer) < length rounds
    → IsQsort qsort
    → IsSendable (last_text [] (entries bit host fileordir rounds (all_notices rs buffer)).0)
    → (sent stream : Bytes) × (do_observer_client ready true fileordir host
          (map chunk_of rs)
          buffer
          last
        ≡ ended sent)
      × (accept_client socket id_junk sent ≡ observer stream)
      × (observer_thread bit socket (some 0) rounds monitored_junk host_junk event_loc stream
          ≡ add_served
              (some clean_entry)
              (entries bit host fileordir rounds (all_notices rs buffer)))
      × ((after_lifecycle qsort logfile
            (entries bit host fileordir rounds (all_notices rs buffer)).0).server_state
          ≡ reading)
      × (do_user_client ready socket user_junk 2 (
            wires (
              report_after qsort logfile
                (entries bit host fileordir rounds (all_notices rs buffer)).0
              ∷ []))
          ≡ closed (encode int_size intro_user ++ confirmations 1) (
              nonempty
                (last_text [] (entries bit host fileordir rounds (all_notices rs buffer)).0 ∷ [])
              ∷ []))
do_observer_client-do_user_client bit socket id_junk mj hj fileordir host rs buffer event_loc last
      rounds qsort logfile user_junk path_ok host_ok size ok readable fuel q sendable =
    let es = (entries bit host fileordir rounds (all_notices rs buffer)).0 in
    let (sent, run_client, (stream, accepted, run_thread)) =
      observer_thread-do_observer_client bit socket id_junk mj hj fileordir host rs buffer event_loc
        last 0 rounds path_ok host_ok size ok readable fuel in
    (
      sent,
      stream,
      run_client,
      accepted,
      run_thread,
      (lifecycle-send_entries qsort logfile es q).0,
      do_user_client-last_text qsort logfile socket user_junk es q sendable,
    )
