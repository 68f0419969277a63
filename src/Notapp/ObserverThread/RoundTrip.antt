-- ===== src/Notapp/ObserverThread/RoundTrip.antt =====
-- From the file events of an observer client to the entries of the server's thread for it.
use mathlib.Core.List.{append_assoc, append-nil}
use c380_1code.Base.{
  ℕ, ◌+◌, ◌^◌, ◌≤◌, ◌<◌, ◌≡◌, refl, sym, ap, ◌∙◌, true, Option, none, some, List, [], ◌∷◌, ◌++◌,
  ltb, map, length, length-append, All, arith,
}
use c380_1code.Notapp.Args.{Str}
use c380_1code.Notapp.Server.{clean_entry}
use c380_1code.Notapp.Wire.{
  Bytes, take, drop, encode, decode, int_size, buf_size, Socket, send_string,
}
use c380_1code.Notapp.Wire.Strings.{IsAscii, read_string-send_string, get-whole}
use c380_1code.Notapp.Message.{ObserverMsg, encode_msg, new_disconnect_observer_message}
use c380_1code.Notapp.Message.Fields.{IsMessage}
use c380_1code.Notapp.EventText.{Flag}
use c380_1code.Notapp.UserClient.{intro_observer}
use c380_1code.Notapp.UserClient.Shows.{ready}
use c380_1code.Notapp.ObserverClient.{
  Stamp, event_buffer_size, ended, introduction, do_observer_client,
}
use c380_1code.Notapp.ObserverClient.Events.{
  FileEvent, name_bytes, event_bytes, buffer_bytes, message, notices_bytes, notices, Report,
  chunk_of, round_notices, buffer_after, all_notices, Fits,
}
use c380_1code.Notapp.ObserverClient.Sends.{IsEvent, length-event_bytes}
use c380_1code.Notapp.ObserverClient.Rounds.{IsRound, AreEvents, do_observer_client-sends}
use c380_1code.Notapp.ObserverThread.{
  Reception, TextJunk, observer, dispatch, after_id, accept_client, add_served, with_host,
  with_monitored, serve_from, serve_events, observer_thread, host_size,
}
use c380_1code.Notapp.ObserverThread.Receives.{IsName, IsNotice, entries, serve_events-notices}

abbrev pub IsStamp : Stamp → Type 0
IsStamp s = (s.padding < 2 ^ 32) × (s.time.sec < 2 ^ 64) × (s.time.usec < 2 ^ 64)

abbrev pub IsText : Option (Str × Bytes) → Type 0
IsText none = Unit
IsText (some (text, padding)) = IsAscii text

abbrev pub AreTexts : Option (List FileEvent) → Type 0
AreTexts none = Unit
AreTexts (some es) = All (λ e. IsText e.name) es

-- a round whose names are ASCII, with a clock whose numbers are those of their types
abbrev pub IsReadable : Report → Type 0
IsReadable r = ((place : ℕ) → IsStamp (r.stamp place)) × AreTexts r.events

All-append {ℓ κ} :
    {A : Type ℓ} (P : A → Type κ) (xs ys : List A) → All P xs → All P ys → All P (xs ++ ys)
All-append P [] ys p q = q
All-append P (x ∷ xs) ys (h, p) q = (h, All-append P xs ys p q)

IsName-IsText :
    (name : Option (Str × Bytes)) → IsText name → length (name_bytes name) < buf_size → IsName name
unfolding name_bytes
IsName-IsText none ok room = tt
IsName-IsText (some (text, padding)) ok room = (ok, room)

message-IsMessage :
    (stamp : Stamp) (e : FileEvent)
    → IsStamp stamp
    → IsEvent e
    → length (name_bytes e.name) < 2 ^ 32
    → IsMessage (message stamp e)
unfolding message
message-IsMessage stamp e (padding, sec, usec) ok room = record {
  type_room = omega arith;
  padding_room = padding;
  sec_room = sec;
  usec_room = usec;
  wd_room = ok.wd_room;
  mask_room = ok.mask_room;
  cookie_room = ok.cookie_room;
  len_room = room;
}

notices-IsNotice :
    (stamp : ℕ → Stamp) (place : ℕ) (es : List FileEvent) (after : Bytes)
    → ((p : ℕ) → IsStamp (stamp p))
    → length (buffer_bytes es) ≤ buf_size
    → All IsEvent es
    → All (λ e. IsText e.name) es
    → All IsNotice (notices stamp place es after)
unfolding notices buffer_bytes
notices-IsNotice stamp place [] after clock fits ok texts = tt
notices-IsNotice stamp place (e ∷ es) after clock fits (ok, oks) (text, texts) =
    let size = length-event_bytes e in
    let sum = length-append (event_bytes e) (buffer_bytes es) in
    (
      (
        message-IsMessage (stamp place) e (clock place) ok (omega (arith, size, sum, fits)),
        IsName-IsText e.name text (omega (arith, size, sum, fits)),
      ),
      notices-IsNotice stamp (place + (16 + length (name_bytes e.name))) es after clock
          (omega (arith, sum, fits)) oks texts,
    )

of_events :
    (events : Option (List FileEvent)) (buffer : Bytes) (stamp : ℕ → Stamp)
    → ((p : ℕ) → IsStamp (stamp p))
    → Fits events
    → AreEvents events
    → AreTexts events
    → All IsNotice (round_notices stamp events buffer)
unfolding round_notices
of_events none buffer stamp clock fits ok texts = tt
of_events (some es) buffer stamp clock fits ok texts =
    notices-IsNotice stamp 0 es (drop (length (buffer_bytes es)) buffer) clock fits ok texts

round_notices-IsNotice :
    (r : Report) (buffer : Bytes)
    → IsRound r
    → IsReadable r
    → All IsNotice (round_notices r.stamp r.events buffer)
round_notices-IsNotice r buffer ((timely, fits), ok) (clock, texts) =
    of_events r.events buffer r.stamp clock fits ok texts

all_notices-IsNotice :
    (rs : List Report) (buffer : Bytes)
    → All IsRound rs
    → All IsReadable rs
    → All IsNotice (all_notices rs buffer)
unfolding all_notices
all_notices-IsNotice [] buffer ok readable = tt
all_notices-IsNotice (r ∷ rs) buffer (ok, oks) (readable, all) =
    All-append IsNotice (round_notices r.stamp r.events buffer)
      (all_notices rs (buffer_after r.events buffer)) (round_notices-IsNotice r buffer ok readable)
      (all_notices-IsNotice rs (buffer_after r.events buffer) oks all)

-- the server takes the client for an observer
accept_client-introduction :
    (socket : Socket) (id_junk : Bytes) (fileordir host : Str) (rest : Bytes)
    → accept_client socket id_junk (introduction fileordir host ++ rest)
      ≡ observer (send_string fileordir ++ (send_string host ++ rest))
unfolding accept_client after_id dispatch introduction encode decode take
accept_client-introduction socket id_junk fileordir host rest =
    let id : Bytes = encode int_size intro_observer in
    ap (accept_client socket id_junk)
      (append_assoc id (send_string fileordir ++ send_string host) rest)
    ∙ (ap (after_id id_junk (id ++ ((send_string fileordir ++ send_string host) ++ rest)))
          (get-whole socket int_size id ((send_string fileordir ++ send_string host) ++ rest) refl)
        ∙ ap observer (append_assoc (send_string fileordir) (send_string host) rest))

-- both texts are read
observer_thread-texts :
    (bit : Flag → ℕ) (socket : Socket) (index : ℕ) (rounds : List Reception)
    (monitored_junk host_junk : TextJunk) (fileordir host : Str) (event_loc rest : Bytes)
    → IsAscii fileordir × (length fileordir < buf_size)
    → IsAscii host × (length host < host_size)
    → observer_thread bit socket
        (some index)
        rounds
        monitored_junk
        host_junk
        event_loc
        (send_string fileordir ++ (send_string host ++ rest))
      ≡ add_served (some clean_entry) (serve_events bit socket host fileordir rounds event_loc rest)
unfolding observer_thread with_monitored with_host serve_from
observer_thread-texts bit socket index rounds mj hj fileordir host event_loc rest (ascii, room)
      (host_ascii, host_room) =
    let fits : ltb (length fileordir) buf_size ≡ true = ground (arith, room) in
    let host_fits : ltb (length host) host_size ≡ true = ground (arith, host_room) in
    let monitored_read =
      read_string-send_string socket mj.size mj.string fileordir (send_string host ++ rest) ascii
        (omega (arith, room)) in
    let host_read =
      read_string-send_string socket hj.size hj.string host rest host_ascii
        (omega (arith, host_room)) in
    ap (with_monitored bit socket (some index) rounds hj event_loc) monitored_read
    ∙ rw fits (
        ap (with_host bit socket (some index) rounds fileordir event_loc) host_read
        ∙ rw host_fits refl)

-- What a client that gets all it needs sends for the events that it reads from inotify, the server
-- takes for an observer's, and the thread for it makes of each event, in the order of the events,
-- an entry whose text is that of the event, behind the entry without a text, and ends when the
-- client disconnects. The texts are ASCII, the path is shorter than 1024 characters and the host
-- shorter than 17, each `read` of the client gets whole events of at most 1024 bytes, `auto_kill`
-- wakes up at most once in a round, and the numbers are those of their types. If the text of an
-- event does not fit its buffer, the entries before it are made, and the behaviour is undefined.
pub observer_thread-do_observer_client :
    (bit : Flag → ℕ) (socket : Socket) (id_junk : Bytes) (monitored_junk host_junk : TextJunk)
    (fileordir host : Str) (rs : List Report) (buffer event_loc : Bytes) (last : ObserverMsg)
    (index : ℕ) (rounds : List Reception)
    → IsAscii fileordir × (length fileordir < buf_size)
    → IsAscii host × (length host < host_size)
    → length buffer ≡ event_buffer_size
    → All IsRound rs
    → All IsReadable rs
    → length (all_notices rs buffer) < length rounds
    → (sent : Bytes) × (do_observer_client ready true fileordir host (map chunk_of rs) buffer last
        ≡ ended sent)
      × ((stream : Bytes) × (accept_client socket id_junk sent ≡ observer stream)
          × (observer_thread bit socket
                (some index)
                rounds
                monitored_junk
                host_junk
                event_loc
                stream
              ≡ add_served
                  (some clean_entry)
                  (entries bit host fileordir rounds (all_notices rs buffer))))
observer_thread-do_observer_client bit socket id_junk mj hj fileordir host rs buffer event_loc last
      index rounds path_ok host_ok size ok readable fuel =
    let ns = all_notices rs buffer in
    let goodbye = encode_msg (new_disconnect_observer_message last) in
    let rest = notices_bytes ns ++ goodbye in
    let served =
      serve_events-notices bit host fileordir socket rounds ns last event_loc [] fuel
        (all_notices-IsNotice rs buffer ok readable) in
    (
      (introduction fileordir host ++ notices_bytes ns) ++ goodbye,
      do_observer_client-sends fileordir host rs buffer last size ok,
      (
        send_string fileordir ++ (send_string host ++ rest),
        ap (accept_client socket id_junk)
              (append_assoc (introduction fileordir host) (notices_bytes ns) goodbye)
            ∙ accept_client-introduction socket id_junk fileordir host rest,
        observer_thread-texts bit socket index rounds mj hj fileordir host event_loc rest path_ok
              host_ok
            ∙ ap (add_served (some clean_entry)) (
                ap
                  (λ t.
                    serve_events bit socket host fileordir rounds event_loc (notices_bytes ns ++ t))
                  (sym (append-nil goodbye))
                ∙ served),
      ),
    )
