-- ===== src/Notapp/Tests/Journeys.antt =====
-- The way of three file events to a user's screen.
use c380_1code.Base.{◌≡◌, refl, true, false, some, List, [], ◌∷◌, ◌++◌, map, codes, arith}
use c380_1code.Notapp.ServerData.{UserEntry}
use c380_1code.Notapp.Server.{clean_entry, reading}
use c380_1code.Notapp.Server.Delivery.{last_text}
use c380_1code.Notapp.Wire.{Bytes, take, encode, int_size}
use c380_1code.Notapp.EventText.{
  mask_names, digits, decimal6, zeros, strcat_next, add_name, has_flag, add_masks, translate_masks,
  strcat, snprintf, format_message, make_entry,
}
use c380_1code.Notapp.UserClient.{closed, do_user_client, intro_user}
use c380_1code.Notapp.UserClient.Shows.{wires, nonempty, IsSendable, confirmations, ready}
use c380_1code.Notapp.ObserverClient.{event_buffer_size, ended, do_observer_client}
use c380_1code.Notapp.ObserverClient.Events.{chunk_of, all_notices, round_notices, notices, message}
use c380_1code.Notapp.ObserverThread.{observer, accept_client, add_served, observer_thread, time_of}
use c380_1code.Notapp.ObserverThread.Receives.{entries, name_str}
use c380_1code.Notapp.Journey.{after_lifecycle, report_after, do_observer_client-do_user_client}
use c380_1code.Notapp.Tests.Sockets.{stream, rubbish, dirty}
use c380_1code.Notapp.Tests.Sorting.{sorting, sorting-IsQsort}
use c380_1code.Notapp.Tests.Events.{
  bit, path, host_text, reports, memory, length-same_bytes, last, reports-IsRound,
  reports-IsReadable, rounds, junk, path-IsAscii, host-IsAscii,
}

last_entry :
    last_text [] (entries bit host_text path rounds (all_notices reports memory)).0
    ≡ codes "1614000000.000042\t10.0.0.7\t/tmp\tIN_OPEN "
unfolding last_text entries all_notices round_notices notices message name_str time_of add_served
    make_entry format_message translate_masks add_masks add_name strcat_next strcat snprintf take
    digits decimal6 zeros mask_names has_flag bit
last_entry = refl

last_entry-IsSendable :
    IsSendable (last_text [] (entries bit host_text path rounds (all_notices reports memory)).0)
last_entry-IsSendable = rw last_entry (omega arith)

abbrev shown : List UserEntry
shown = (entries bit host_text path rounds (all_notices reports memory)).0

do_observer_client-do_user_client_example :
    (sent bytes : Bytes) × (do_observer_client ready true path host_text
        (map chunk_of reports)
        memory
        last
      ≡ ended sent)
    × (accept_client stream rubbish sent ≡ observer bytes)
    × (observer_thread bit stream (some 0) rounds junk junk memory bytes
        ≡ add_served
            (some clean_entry)
            (entries bit host_text path rounds (all_notices reports memory)))
    × ((after_lifecycle sorting false shown).server_state ≡ reading)
    × (do_user_client ready stream dirty 2 (wires (report_after sorting false shown ∷ []))
        ≡ closed
            (encode int_size intro_user ++ confirmations 1)
            (nonempty (last_text [] shown ∷ []) ∷ []))
unfolding all_notices round_notices notices
do_observer_client-do_user_client_example =
    do_observer_client-do_user_client bit stream rubbish junk junk path host_text reports memory
      memory last rounds sorting false dirty path-IsAscii host-IsAscii
      (length-same_bytes event_buffer_size) reports-IsRound reports-IsReadable (omega arith)
      sorting-IsQsort last_entry-IsSendable
