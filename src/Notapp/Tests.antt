-- ===== src/Notapp/Tests.antt =====
-- The parts of notapp at concrete inputs.
mod Threads
mod Sockets
mod Events
mod Sorting
mod Servers
mod Journeys
use c380_1code.Base.{
  ℕ, ◌+◌, ◌≡◌, ◌≢◌, ◌↔◌, refl, true, false, some, List, [], ◌∷◌, ◌==◌, if◌then◌else◌, length, total,
  arith,
}
use c380_1code.Notapp.Args.{
  Str, server, NotappArgs, init_notapp_args, parse_args, parse_args_server, parse_flags, str_eq,
  flag_s, flag_t,
}
use c380_1code.Notapp.Args.Accepts.{
  ServerOption, interval, port, render, has_interval, apply_all, parse_args-server,
  parse_args-server_only,
}
use c380_1code.Notapp.Main.{run_server, main, main-run_server}
use c380_1code.Notapp.ServerData.{
  UserEntry, Observers, one, sort_entry_array_comp, register_observer, unregister_observer,
  send_entries, print_logfile, is_locked,
}
use c380_1code.Notapp.ServerData.Slots.{
  IsConsistent, taken, Registers, register_observer-Registers, unregister_observer-frees,
}
use c380_1code.Notapp.ServerData.Timer.{after_calls, expired_twice, is_locked-expired_twice}
use c380_1code.Notapp.ServerData.Order.{
  opposite, sort_entry_array_comp-swap, sort_entry_array_comp-transitive,
}
use c380_1code.Notapp.ServerData.Reports.{print_logfile-length, send_entries-print_logfile}

-- `notapp -s -t 2 -p 80`, with the length of a text for its number
abbrev options : List ServerOption
options = interval (50 ∷ []) ∷ port (56 ∷ 48 ∷ []) ∷ []

abbrev program : Str
program = 110 ∷ 111 ∷ []

abbrev server_args : NotappArgs ℕ
server_args = record (apply_all ℕ 5 length options (init_notapp_args ℕ 5 length)) { role = server }

main-run_server_example :
    (main ℕ 5 length (program ∷ flag_s ∷ render options) ≡ run_server server_args) ↔ (
      (p : Str) × (opts : List ServerOption) × (program ∷ flag_s ∷ render options
        ≡ p ∷ flag_s ∷ render opts)
      × (has_interval opts ≡ true)
      × (server_args
          ≡ record (apply_all ℕ 5 length opts (init_notapp_args ℕ 5 length)) { role = server }))
main-run_server_example = main-run_server ℕ 5 length (program ∷ flag_s ∷ render options) server_args

abbrev early : UserEntry
early = record { is_taken = true; tv_sec = 3; tv_usec = 0; string = 97 ∷ [] }

abbrev late : UserEntry
late = record { is_taken = true; tv_sec = 3; tv_usec = 9; string = 98 ∷ [] }

abbrev none_yet : UserEntry
none_yet = record { is_taken = false; tv_sec = 0; tv_usec = 0; string = [] }

abbrev observers : Observers
observers = record {
  observer_count = 1;
  entry_array_size = 1;
  entry_array = λ i. if i == 0 then late else none_yet;
}

observers-IsConsistent : IsConsistent observers
unfolding total
observers-IsConsistent = record {
  within = omega arith;
  free_above = λ i le. ground arith;
  counted = refl;
}

register_observer-Registers_example : Registers observers (register_observer observers)
register_observer-Registers_example = register_observer-Registers observers observers-IsConsistent

unregister_observer-frees_example :
    (taken (unregister_observer observers (some 0)) 0 ≡ false)
    × ((j : ℕ)
        → j ≢ 0
        → (unregister_observer observers (some 0)).entry_array j ≡ observers.entry_array j)
    × ((unregister_observer observers (some 0)).observer_count + 1 ≡ 1)
    × IsConsistent (unregister_observer observers (some 0))
unregister_observer-frees_example =
    unregister_observer-frees observers 0 observers-IsConsistent (omega arith) refl

is_locked-expired_twice_example :
    is_locked (after_calls (true ∷ true ∷ false ∷ [])) ≡ expired_twice (true ∷ true ∷ false ∷ [])
is_locked-expired_twice_example = is_locked-expired_twice (true ∷ true ∷ false ∷ [])

send_entries-print_logfile_example :
    ((send_entries observers (record { reader_done_count = 0; reader_count = 1 })).count
      ≡ length (print_logfile observers))
    × ((send_entries observers (record { reader_done_count = 0; reader_count = 1 })).strings
        ≡ print_logfile observers)
send_entries-print_logfile_example =
    send_entries-print_logfile observers (record { reader_done_count = 0; reader_count = 1 })
      observers-IsConsistent (λ j l. ground (arith, l))
