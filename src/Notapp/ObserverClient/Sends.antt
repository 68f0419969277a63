-- ===== src/Notapp/ObserverClient/Sends.antt =====
-- An observer client sends one message for each event that inotify reports, in their order.
use mathlib.Core.List.{append_assoc}
use c380_1code.Base.{
  ℕ, zero, suc, ◌+◌, ◌%◌, ◌^◌, ◌≤◌, ◌<◌, ◌≡◌, refl, sym, ap, ◌∙◌, true, false, Option, none, some,
  List, [], ◌∷◌, ◌++◌, ◌==◌, ltb, if◌then◌else◌, length, length-append, All, arith,
}
use c380_1code.Notapp.Args.{Str}
use c380_1code.Notapp.Wire.{Bytes, take, drop, field, encode, buf_size}
use c380_1code.Notapp.Wire.Numbers.{decode-encode, take-append, drop-append, drop-add}
use c380_1code.Notapp.Message.{encode_msg}
use c380_1code.Notapp.ObserverClient.{
  Stamp, event_struct_size, event_message, send_name, send_event, sends, process_events,
}
use c380_1code.Notapp.ObserverClient.Events.{
  FileEvent, name_bytes, event_bytes, buffer_bytes, message, name_sent, notice_bytes, notices_bytes,
  first, notices,
}

-- the numbers of an event are those of their types
pub record IsEvent (e : FileEvent) : Type 0 where
  pub wd_room : e.wd < 2 ^ 32
  pub mask_room : e.mask < 2 ^ 32
  pub cookie_room : e.cookie < 2 ^ 32

pub length-event_bytes : (e : FileEvent) → length (event_bytes e) ≡ 16 + length (name_bytes e.name)
unfolding event_bytes encode
length-event_bytes e = omega arith

-- the numbers of an event at the start of a memory, and its name
event_fields :
    (e : FileEvent) (rest : Bytes)
    → IsEvent e
    → length (name_bytes e.name) < 2 ^ 32
    → (field 0 4 (event_bytes e ++ rest) ≡ e.wd)
      × (field 4 4 (event_bytes e ++ rest) ≡ e.mask)
      × (field 8 4 (event_bytes e ++ rest) ≡ e.cookie)
      × (field 12 4 (event_bytes e ++ rest) ≡ length (name_bytes e.name))
unfolding field event_bytes encode take drop
event_fields e rest h room = (
  decode-encode 4 e.wd h.wd_room,
  decode-encode 4 e.mask h.mask_room,
  decode-encode 4 e.cookie h.cookie_room,
  decode-encode 4 (length (name_bytes e.name)) room,
)

event_name :
    (e : FileEvent) (rest : Bytes)
    → drop event_struct_size (event_bytes e ++ rest) ≡ name_bytes e.name ++ rest
unfolding event_bytes encode drop
event_name e rest = refl

event_message-event_bytes :
    (stamp : Stamp) (e : FileEvent) (rest : Bytes)
    → IsEvent e
    → length (name_bytes e.name) < 2 ^ 32
    → event_message stamp (event_bytes e ++ rest) ≡ message stamp e
unfolding event_message message
event_message-event_bytes stamp e rest h room =
    let (wd, mask, cookie, len) = event_fields e rest h room in rw (wd, mask, cookie, len) refl

take_one_more : (bs rest : Bytes) (b : ℕ) → take (length bs + 1) (bs ++ b ∷ rest) ≡ bs ++ b ∷ []
take_one_more bs rest b =
    rw (sym (append_assoc bs (b ∷ []) rest), sym (length-append bs (b ∷ [])))
      (take-append (bs ++ b ∷ []) rest)

-- what is sent of a name that `rest` stands behind
take_name :
    (name : Option (Str × Bytes)) (rest : Bytes)
    → 0 < length rest
    → length (name_bytes name) < 2 ^ 31
    → (if length (name_bytes name) == 0
        then []
        else take ((length (name_bytes name) + 1) % 2 ^ 32) (name_bytes name ++ rest))
      ≡ name_sent name (first rest)
unfolding name_bytes name_sent first
take_name name [] more room = absurd (omega (arith, more))
take_name none (b ∷ rest) more room = refl
take_name (some (text, padding)) (b ∷ rest) more room =
    let bs : Bytes = text ++ 0 ∷ padding in
    let sum = length-append text (0 ∷ padding) in
    let on : (length bs == 0) ≡ false = ground (arith, sum) in
    let small : (length bs + 1) % 2 ^ 32 ≡ length bs + 1 = omega (arith, room) in
    rw (on, small) (take_one_more bs rest b)

send_name-event_bytes :
    (e : FileEvent) (rest : Bytes)
    → 0 < length rest
    → length (name_bytes e.name) < 2 ^ 31
    → send_name (length (name_bytes e.name)) (event_bytes e ++ rest) ≡ name_sent e.name (first rest)
unfolding send_name
send_name-event_bytes e rest more room = rw (event_name e rest) (take_name e.name rest more room)

-- the message and the name of an event that stands in the buffer
send_event-event_bytes :
    (stamp : Stamp) (e : FileEvent) (rest : Bytes)
    → IsEvent e
    → 0 < length rest
    → length (name_bytes e.name) < 2 ^ 31
    → send_event stamp (event_bytes e ++ rest)
      ≡ notice_bytes (record { stamp = stamp; event = e; extra = first rest })
unfolding send_event notice_bytes message
send_event-event_bytes stamp e rest h more room =
    rw (event_message-event_bytes stamp e rest h (omega (arith, room)))
      (ap (λ t. encode_msg (message stamp e) ++ t) (send_name-event_bytes e rest more room))

-- a round of the inner loop
process_event :
    (stamp : ℕ → Stamp) (buffer : Bytes) (bytes_read rounds place : ℕ) (e : FileEvent)
    (rest : Bytes)
    → drop place buffer ≡ event_bytes e ++ rest
    → IsEvent e
    → place < bytes_read
    → place + (16 + length (name_bytes e.name)) < 2 ^ 31
    → process_events stamp buffer bytes_read (suc rounds) place
      ≡ sends (send_event (stamp place) (event_bytes e ++ rest)) (
          process_events stamp buffer bytes_read rounds (place + (16 + length (name_bytes e.name))))
unfolding process_events
process_event stamp buffer bytes_read rounds place e rest at h more room =
    let (_, _, _, len) = event_fields e rest h (omega (arith, room)) in
    let size = length (name_bytes e.name) in
    let small : (place + (16 + size)) % 2 ^ 32 ≡ place + (16 + size) = omega (arith, room) in
    let on : ltb place bytes_read ≡ true = ground (arith, more) in
    let in_front : ltb (place + (16 + size)) (2 ^ 31) ≡ true = ground (arith, room) in
    rw (at, len, small, on, in_front) refl

-- the rest of the buffer behind an event
drop-event_bytes :
    (buffer rest : Bytes) (place : ℕ) (e : FileEvent)
    → drop place buffer ≡ event_bytes e ++ rest
    → drop (place + (16 + length (name_bytes e.name))) buffer ≡ rest
drop-event_bytes buffer rest place e at =
    rw (drop-add place (16 + length (name_bytes e.name)) buffer, at, sym (length-event_bytes e))
      (drop-append (event_bytes e) rest)

process_done :
    (stamp : ℕ → Stamp) (buffer : Bytes) (bytes_read rounds place : ℕ)
    → bytes_read ≤ place
    → process_events stamp buffer bytes_read (suc rounds) place ≡ some []
unfolding process_events
process_done stamp buffer bytes_read rounds place h =
    let off : ltb place bytes_read ≡ false = ground (arith, h) in rw off refl

-- The inner loop ends, and sends the events that the buffer holds.
pub process_events-notices :
    (stamp : ℕ → Stamp) (buffer after : Bytes) (bytes_read rounds place : ℕ) (es : List FileEvent)
    → drop place buffer ≡ buffer_bytes es ++ after
    → place + length (buffer_bytes es) ≡ bytes_read
    → bytes_read ≤ buf_size
    → 0 < length after
    → length (buffer_bytes es) < rounds
    → All IsEvent es
    → process_events stamp buffer bytes_read rounds place
      ≡ some (notices_bytes (notices stamp place es after))
unfolding buffer_bytes notices notices_bytes sends
process_events-notices stamp buffer after bytes_read zero place es at all room more fuel h =
    absurd (omega (arith, fuel))
process_events-notices stamp buffer after bytes_read (suc rounds) place [] at all room more fuel h =
    process_done stamp buffer bytes_read rounds place (omega (arith, all))
process_events-notices stamp buffer after bytes_read (suc rounds) place (e ∷ es) at all room more
      fuel (first_ok, h) =
    let size = length (name_bytes e.name) in
    let bytes = length-event_bytes e in
    let sum = length-append (event_bytes e) (buffer_bytes es) in
    let rest : Bytes = buffer_bytes es ++ after in
    let rest_length = length-append (buffer_bytes es) after in
    let at' : drop place buffer ≡ event_bytes e ++ rest =
      at ∙ append_assoc (event_bytes e) (buffer_bytes es) after in
    process_event stamp buffer bytes_read rounds place e rest at' first_ok
      (omega (arith, bytes, sum, all)) (omega (arith, bytes, sum, all, room))
    ∙ rw
        (
          send_event-event_bytes (stamp place) e rest first_ok (omega (arith, rest_length, more))
              (omega (arith, bytes, sum, all, room)),
          process_events-notices stamp buffer after bytes_read rounds (place + (16 + size)) es
              (drop-event_bytes buffer rest place e at') (omega (arith, bytes, sum, all)) room more
              (omega (arith, bytes, sum, fuel)) h,
        )
        refl
