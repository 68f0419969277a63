-- ===== src/Notapp/ObserverThread/Receives.antt =====
-- What `observer_thread` makes of the bytes that an observer client sends.
use mathlib.Core.List.{append_assoc}
use c380_1code.Base.{
  ℕ, ◌+◌, ◌%◌, ◌^◌, ◌<◌, ◌≡◌, refl, ap, ◌∙◌, Bool, true, false, ◌||◌, Option, none, some, List, [],
  ◌∷◌, ◌++◌, ◌==◌, ltb, if◌then◌else◌, length, length-append, All, arith,
}
use c380_1code.Notapp.Args.{Str}
use c380_1code.Notapp.Wire.{
  Bytes, take, drop, overwrite, field, encode, decode, buf_size, Socket, is_disconnect, c_string,
}
use c380_1code.Notapp.Wire.Strings.{IsAscii, c_string-append, text_start, get-whole}
use c380_1code.Notapp.Message.{
  ObserverMsg, observer_msg_size, encode_msg, decode_msg, disconnection_observer,
  new_disconnect_observer_message,
}
use c380_1code.Notapp.Message.Fields.{IsMessage, length-encode_msg, decode_msg-encode_msg}
use c380_1code.Notapp.EventText.{Flag, make_entry}
use c380_1code.Notapp.ObserverClient.Events.{
  name_bytes, Notice, message, name_sent, notice_bytes, notices_bytes,
}
use c380_1code.Notapp.ObserverThread.{
  Served, over, running, add_served, Reading, stop, event, check_name, read_name, after_message,
  read_event, Reception, time_of, serve_event, serve_events,
}

-- a name that the server's buffer holds, with the byte behind it
abbrev pub IsName : Option (Str × Bytes) → Type 0
IsName none = Unit
IsName (some (text, padding)) = IsAscii text × (length (text ++ 0 ∷ padding) < buf_size)

abbrev pub IsNotice : Notice → Type 0
IsNotice n = IsMessage (message n.stamp n.event) × IsName n.event.name

-- the name without what stands behind it
unfoldable pub name_str : Option (Str × Bytes) → Option Str
name_str none = none
name_str (some (text, padding)) = some text

or_false : (b : Bool) (r : Reading) → (if b || false then stop else r) ≡ (if b then stop else r)
or_false true r = refl
or_false false r = refl

disconnect_type :
    (last : ObserverMsg) (junk : Bytes)
    → ((decode_msg (encode_msg (new_disconnect_observer_message last) ++ junk)).msg_type
        == disconnection_observer)
      ≡ true
unfolding decode_msg encode_msg new_disconnect_observer_message field take drop encode decode
disconnect_type last junk = refl

module _ (socket : Socket) where
  -- the name that is sent is read, whatever `event_loc` held
  read_name-name_sent :
      (m : ObserverMsg) (name : Option (Str × Bytes)) (extra : ℕ) (event_loc rest : Bytes)
      → m.len ≡ length (name_bytes name)
      → IsName name
      → (loc : Bytes) × (read_name socket m event_loc (name_sent name extra ++ rest)
          ≡ event m (name_str name) loc rest)
  unfolding name_bytes name_sent name_str read_name check_name overwrite
  read_name-name_sent m none extra event_loc rest len ok =
      let off : (m.len == 0) ≡ true = ground (arith, len) in (0 ∷ drop 1 event_loc, rw off refl)
  read_name-name_sent m (some (text, padding)) extra event_loc rest len (ascii, room) =
      let name : Bytes = text ++ 0 ∷ padding in
      let got : Bytes = name ++ extra ∷ [] in
      let behind : Bytes = extra ∷ drop (length got) event_loc in
      let size = length-append text (0 ∷ padding) in
      let got_size = length-append name (extra ∷ []) in
      let on : (m.len == 0) ≡ false = ground (arith, size, len) in
      let count : (m.len + 1) % 2 ^ 32 ≡ length got = omega (arith, room, len, got_size) in
      let fits : ltb buf_size (length got) ≡ false = ground (arith, room, got_size) in
      let more : (length got == 0) ≡ false = ground (arith, got_size) in
      let memory : got ++ drop (length got) event_loc ≡ text ++ 0 ∷ (padding ++ behind) =
        append_assoc name (extra ∷ []) (drop (length got) event_loc)
        ∙ append_assoc text (0 ∷ padding) behind in
      let alive : is_disconnect (got ++ drop (length got) event_loc) ≡ false =
        rw memory (text_start text (padding ++ behind) ascii) in
      let read : c_string (got ++ drop (length got) event_loc) ≡ text =
        rw memory (c_string-append text (padding ++ behind) ascii) in
      (overwrite got event_loc, rw (on, count, socket.whole got rest, fits, more, alive, read) refl)

  -- a message that stands first in the socket
  read_event-message :
      (m : ObserverMsg) (junk event_loc rest : Bytes)
      → read_event socket junk event_loc (encode_msg m ++ rest) ≡ (
          if (decode_msg (encode_msg m ++ junk)).msg_type == disconnection_observer
          then stop
          else read_name socket (decode_msg (encode_msg m ++ junk)) event_loc rest)
  unfolding read_event after_message
  read_event-message m junk event_loc rest =
      let size = length-encode_msg m in
      let some_got : (length (encode_msg m) == 0) ≡ false = ground (arith, size) in
      ap (after_message socket junk event_loc)
        (get-whole socket observer_msg_size (encode_msg m) rest size)
      ∙ rw some_got (
          or_false ((decode_msg (encode_msg m ++ junk)).msg_type == disconnection_observer)
            (read_name socket (decode_msg (encode_msg m ++ junk)) event_loc rest))

  read_event-notice :
      (n : Notice) (junk event_loc rest : Bytes)
      → IsNotice n
      → (loc : Bytes) × (read_event socket junk event_loc (notice_bytes n ++ rest)
          ≡ event (message n.stamp n.event) (name_str n.event.name) loc rest)
  unfolding notice_bytes message
  read_event-notice n junk event_loc rest (ok, named) =
      let m = message n.stamp n.event in
      let name = name_sent n.event.name n.extra in
      let (loc, name_read) = read_name-name_sent m n.event.name n.extra event_loc rest refl named in
      (
        loc,
        ap (read_event socket junk event_loc) (append_assoc (encode_msg m) name rest)
            ∙ (read_event-message m junk event_loc (name ++ rest)
                ∙ rw (decode_msg-encode_msg m junk ok) name_read),
      )

  read_event-disconnect :
      (last : ObserverMsg) (junk event_loc rest : Bytes)
      → read_event socket junk event_loc (encode_msg (new_disconnect_observer_message last) ++ rest)
        ≡ stop
  read_event-disconnect last junk event_loc rest =
      read_event-message (new_disconnect_observer_message last) junk event_loc rest
      ∙ rw (disconnect_type last junk) refl

module _ (bit : Flag → ℕ) (host monitored : Str) where
  -- the entries for the notices, in their order
  unfoldable pub entries : List Reception → List Notice → Served
  entries rounds [] = ([], over)
  entries [] (n ∷ ns) = ([], running)
  entries (round ∷ rounds) (n ∷ ns) =
      let m = message n.stamp n.event in
      let entry =
        make_entry bit host monitored (time_of round.clock m) (name_str n.event.name) m.mask in
      add_served entry (entries rounds ns)

  pub serve_events-notices :
      (socket : Socket) (rounds : List Reception) (ns : List Notice) (last : ObserverMsg)
      (event_loc rest : Bytes)
      → length ns < length rounds
      → All IsNotice ns
      → serve_events bit socket host monitored rounds event_loc
          (notices_bytes ns ++ (encode_msg (new_disconnect_observer_message last) ++ rest))
        ≡ entries rounds ns
  unfolding serve_events serve_event notices_bytes entries
  serve_events-notices socket [] ns last event_loc rest fuel ok = absurd (omega (arith, fuel))
  serve_events-notices socket (round ∷ rounds) [] last event_loc rest fuel ok =
      rw (read_event-disconnect socket last round.junk event_loc rest) refl
  serve_events-notices socket (round ∷ rounds) (n ∷ ns) last event_loc rest fuel (ok, oks) =
      let tail = encode_msg (new_disconnect_observer_message last) ++ rest in
      let (loc, read) =
        read_event-notice socket n round.junk event_loc (notices_bytes ns ++ tail) ok in
      rw
        (
          append_assoc (notice_bytes n) (notices_bytes ns) tail,
          read,
          serve_events-notices socket rounds ns last loc rest (omega (arith, fuel)) oks,
        )
        refl
