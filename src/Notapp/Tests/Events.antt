-- ===== src/Notapp/Tests/Events.antt =====
-- An observer client and the server's thread for it, at concrete inputs.
use c380_1code.Base.{
  ℕ, zero, suc, ◌≡◌, ◌<◌, refl, ap, true, All, none, some, List, [], ◌∷◌, map, length, codes, arith,
}
use c380_1code.Notapp.Args.{Str}
use c380_1code.Notapp.Server.{clean_entry}
use c380_1code.Notapp.Wire.{Bytes, take, encode, buf_size}
use c380_1code.Notapp.Wire.Strings.{IsAscii}
use c380_1code.Notapp.Message.{Time, ObserverMsg}
use c380_1code.Notapp.EventText
use c380_1code.Notapp.EventText.{
  Flag, format_message, digits, decimal, decimal6, zeros, snprintf, mask_names, has_flag, add_masks,
  translate_masks, add_name, strcat_next, strcat,
}
use c380_1code.Notapp.EventText.Bounds.{
  format_message-exact, format_message-fits, event_text, name_text, flag_names,
}
use c380_1code.Notapp.UserClient.Shows.{ready}
use c380_1code.Notapp.ObserverClient.{Stamp, event_buffer_size, ended, do_observer_client}
use c380_1code.Notapp.ObserverClient.Events.{
  FileEvent, name_bytes, event_bytes, buffer_bytes, Report, chunk_of, all_notices, round_notices,
  notices,
}
use c380_1code.Notapp.ObserverClient.Sends.{IsEvent}
use c380_1code.Notapp.ObserverClient.Rounds.{IsRound}
use c380_1code.Notapp.ObserverThread.{
  Reception, TextJunk, observer, accept_client, add_served, observer_thread, host_size,
}
use c380_1code.Notapp.ObserverThread.Receives.{entries}
use c380_1code.Notapp.ObserverThread.RoundTrip.{
  IsStamp, IsReadable, observer_thread-do_observer_client,
}
use c380_1code.Notapp.Tests.Sockets.{stream, rubbish}

-- the bits of Linux
unfoldable pub bit : Flag → ℕ
bit EventText.in_access = 0
bit EventText.in_modify = 1
bit EventText.in_attrib = 2
bit EventText.in_close_write = 3
bit EventText.in_close_nowrite = 4
bit EventText.in_open = 5
bit EventText.in_moved_from = 6
bit EventText.in_moved_to = 7
bit EventText.in_create = 8
bit EventText.in_delete = 9
bit EventText.in_delete_self = 10
bit EventText.in_move_self = 11
bit EventText.in_unmount = 13
bit EventText.in_q_overflow = 14
bit EventText.in_ignored = 15
bit EventText.in_isdir = 30

abbrev noon : Time
noon = record { sec = 1614000000; usec = 42 }

abbrev pub path : Str
path = codes "/tmp"

abbrev pub host_text : Str
host_text = codes "10.0.0.7"

-- a file "a" is made
abbrev text_a : Str
text_a = codes "1614000000.000042\t10.0.0.7\t/tmp\ta IN_CREATE "

format_message_test : format_message bit host_text path noon (some (codes "a")) 256 ≡ some text_a
unfolding format_message translate_masks add_masks add_name strcat_next strcat snprintf take digits
    decimal6 zeros mask_names has_flag bit
format_message_test = refl

format_message-exact_example :
    format_message bit host_text path noon (some (codes "a")) 256 ≡ some text_a
unfolding event_text snprintf take digits decimal6 zeros name_text flag_names mask_names has_flag
    bit
format_message-exact_example = format_message-exact bit host_text path noon (some (codes "a")) 256

format_message-fits_example :
    format_message bit host_text path noon (some (codes "a")) 256 ≡ some text_a
unfolding digits decimal6 zeros name_text flag_names mask_names has_flag bit
format_message-fits_example =
    format_message-fits bit host_text path noon (some (codes "a")) 256 (omega arith) (omega arith)

-- the file "a" is made and then opened, and the path itself opened later
abbrev made : FileEvent
made = record { wd = 1; mask = 256; cookie = 0; name = some (codes "a", 0 ∷ 0 ∷ []) }

abbrev opened : FileEvent
opened = record { wd = 1; mask = 32; cookie = 0; name = some (codes "a", 0 ∷ 0 ∷ []) }

abbrev path_opened : FileEvent
path_opened = record { wd = 1; mask = 32; cookie = 0; name = none }

abbrev clock : ℕ → Stamp
clock place = record { time = noon; padding = 7 }

abbrev pub reports : List Report
reports =
    record { wakeups = 1; events = some (made ∷ opened ∷ []); stamp = clock }
    ∷ record { wakeups = 0; events = none; stamp = clock }
    ∷ record { wakeups = 1; events = some (path_opened ∷ []); stamp = clock }
    ∷ []

pub same_bytes : ℕ → Bytes
same_bytes zero = []
same_bytes (suc n) = 255 ∷ same_bytes n

pub length-same_bytes : (n : ℕ) → length (same_bytes n) ≡ n
unfolding same_bytes
length-same_bytes zero = refl
length-same_bytes (suc n) = ap suc (length-same_bytes n)

abbrev pub memory : Bytes
memory = same_bytes event_buffer_size

abbrev pub last : ObserverMsg
last = record { msg_type = 9; padding = 9; tv = noon; wd = 9; mask = 9; cookie = 9; len = 9 }

events-IsEvent : IsEvent made × IsEvent opened × IsEvent path_opened
events-IsEvent = (
  record { wd_room = omega arith; mask_room = omega arith; cookie_room = omega arith },
  record { wd_room = omega arith; mask_room = omega arith; cookie_room = omega arith },
  record { wd_room = omega arith; mask_room = omega arith; cookie_room = omega arith },
)

pub reports-IsRound : All IsRound reports
unfolding buffer_bytes event_bytes name_bytes encode
reports-IsRound =
    let (ok1, ok2, ok3) = events-IsEvent in
    (
      ((omega arith, omega arith), (ok1, (ok2, tt))),
      (((omega arith, tt), tt), (((omega arith, omega arith), (ok3, tt)), tt)),
    )

clock-IsStamp : (place : ℕ) → IsStamp (clock place)
clock-IsStamp place = (omega arith, omega arith, omega arith)

a-IsAscii : IsAscii (codes "a")
a-IsAscii = ((omega arith, omega arith), tt)

pub reports-IsReadable : All IsReadable reports
reports-IsReadable = (
  (clock-IsStamp, (a-IsAscii, (a-IsAscii, tt))),
  ((clock-IsStamp, tt), ((clock-IsStamp, (tt, tt)), tt)),
)

-- without NOTAPP_TIME
abbrev round : Reception
round = record { clock = none; junk = rubbish }

abbrev pub rounds : List Reception
rounds = round ∷ round ∷ round ∷ round ∷ []

abbrev pub junk : TextJunk
junk = record { size = rubbish; string = rubbish }

pub path-IsAscii : IsAscii path × (length path < buf_size)
path-IsAscii = (omega arith, omega arith)

pub host-IsAscii : IsAscii host_text × (length host_text < host_size)
host-IsAscii = (omega arith, omega arith)

observer_thread-do_observer_client_example :
    (sent : Bytes) × (do_observer_client ready true path host_text
        (map chunk_of reports)
        memory
        last
      ≡ ended sent)
    × ((bytes : Bytes) × (accept_client stream rubbish sent ≡ observer bytes)
        × (observer_thread bit stream (some 3) rounds junk junk memory bytes
            ≡ add_served
                (some clean_entry)
                (entries bit host_text path rounds (all_notices reports memory))))
unfolding all_notices round_notices notices
observer_thread-do_observer_client_example =
    observer_thread-do_observer_client bit stream rubbish junk junk path host_text reports memory
      memory last 3 rounds path-IsAscii host-IsAscii (length-same_bytes event_buffer_size)
      reports-IsRound reports-IsReadable (omega arith)
