-- ===== src/Notapp/Server.antt =====
-- Assignment02/server.c: the threads of the server over the data of server_data.c. A step is one
-- statement that reads or writes shared data, one locked section, or one read from a socket; which
-- thread takes the next step, and what a socket yields, is up to the schedule. The threads that
-- serve clients are indexed by numbers. `qsort` is not part of the repository: it is a parameter.
-- What a client sends, once its message is made an entry, is an input; Notapp/Wire reads it.
pub mod States
pub mod Frames
pub mod Phases
pub mod Writers
pub mod Frozen
pub mod Sprint
pub mod Delivery
pub mod Race
pub use States.*
use c380_1code.Base.{
  ℕ, zero, suc, ◌+◌, ◌-◌, ◌%◌, ◌^◌, Bool, true, false, not, ◌&&◌, ◌||◌, Option, none, some, List,
  [], ◌∷◌, ◌++◌, ◌==◌, ltb, leb, if◌then◌else◌, update,
}
use c380_1code.Notapp.Args.{Str}
use c380_1code.Notapp.ServerData.{
  int_mod, int_max, client_max, TimerData, initial_timer, set_timer_expired, is_locked, Readers,
  are_readers_done, reset_reader_done_count, register_user, unregister_user, UserEntry, Observers,
  mark, register_observer, print_logfile, Qsort, sort_entry_array,
}

unfoldable pub is_done : ServerState → Bool
is_done done = true
is_done sorting = false
is_done reading = false

unfoldable pub is_reading : ServerState → Bool
is_reading done = false
is_reading sorting = false
is_reading reading = true

unfoldable pub get_timer_expired : TimerData → Bool
get_timer_expired d = d.timer_expired

-- the entry before the first event
unfoldable pub clean_entry : UserEntry
clean_entry = record { is_taken = false; tv_sec = 0; tv_usec = 0; string = [] }

-- `entry_array[index].tv = entry->tv`
unfoldable pub write_time : Observers → ℕ → UserEntry → Observers
write_time s index entry = record s {
  entry_array =
      update s.entry_array index
        (record (s.entry_array index) { tv_sec = entry.tv_sec; tv_usec = entry.tv_usec });
}

-- `strcpy(entry_array[index].string, entry->string)`
unfoldable pub write_string : Observers → ℕ → UserEntry → Observers
write_string s index entry = record s {
  entry_array = update s.entry_array index (record (s.entry_array index) { string = entry.string });
}

-- a step in `add_entry`; an increment beyond the largest `int` is undefined
unfoldable pub add_entry_step : ObserverPc → System → ObserverPc × System
add_entry_step (add_wait index entry) s =
    (if is_done s.server_state then add_enter index entry else add_wait index entry, s)
add_entry_step (add_enter index entry) s =
    if s.writer_count == int_max
    then (fault, s)
    else (add_time index entry, record s { writer_count = (s.writer_count + 1) % int_mod })
add_entry_step (add_time none entry) s = (fault, s)
add_entry_step (add_time (some index) entry) s =
    (add_string index entry, record s { observers = write_time s.observers index entry })
add_entry_step (add_string index entry) s =
    (add_leave index, record s { observers = write_string s.observers index entry })
add_entry_step (add_leave index) s =
    (receive index, record s { writer_count = (s.writer_count + (int_mod - 1)) % int_mod })
add_entry_step pc s = (pc, s)

-- a step in `unregister_observer`
unfoldable pub unregister_step : ObserverPc → System → ObserverPc × System
unregister_step (free_entry index) s = if leb client_max index then (gone, s) else (
  shrink index,
  record s {
    observers = record s.observers { entry_array = mark s.observers.entry_array index false };
  },
)
unregister_step (shrink index) s = (
  uncount,
  record s {
    observers = record s.observers {
      entry_array_size =
          if index + 1 == s.observers.entry_array_size
          then s.observers.entry_array_size - 1
          else s.observers.entry_array_size;
    };
  },
)
unregister_step uncount s = (
  gone,
  record s {
    observers = record s.observers {
      observer_count = (s.observers.observer_count + (int_mod - 1)) % int_mod;
    };
  },
)
unregister_step pc s = (pc, s)

-- a step of an observer thread: its next place and the shared data
unfoldable pub observer_step : Received → ObserverPc → System → ObserverPc × System
observer_step input connect s =
    let (index, observers) = register_observer s.observers in
    (add_wait index clean_entry, record s { observers = observers })
observer_step input (add_wait index entry) s = add_entry_step (add_wait index entry) s
observer_step input (add_enter index entry) s = add_entry_step (add_enter index entry) s
observer_step input (add_time index entry) s = add_entry_step (add_time index entry) s
observer_step input (add_string index entry) s = add_entry_step (add_string index entry) s
observer_step input (add_leave index) s = add_entry_step (add_leave index) s
observer_step (event entry) (receive index) s = (add_wait (some index) entry, s)
observer_step disconnect (receive index) s = (free_entry index, s)
observer_step input (free_entry index) s = unregister_step (free_entry index) s
observer_step input (shrink index) s = unregister_step (shrink index) s
observer_step input uncount s = unregister_step uncount s
observer_step input fault s = (fault, s)
observer_step input gone s = (gone, s)

-- a step of a user thread
unfoldable pub user_step : (alive : Bool) → UserPc → UserThread → System → UserThread × System
user_step alive join t s =
    (record t { pc = wait_reading }, record s { readers = register_user s.readers })
user_step alive wait_reading t s =
    if is_reading s.server_state || is_locked s.timer
    then (record t { pc = confirm }, s)
    else (t, s)
user_step alive confirm t s = (record t { pc = if alive then send_count else leave }, s)
user_step alive send_count t s =
    (record t { pc = send_entry 0; outbox = t.outbox ++ number s.observers.observer_count ∷ [] }, s)
user_step alive (send_entry i) t s =
    if ltb i s.observers.observer_count
    then (
      record t {
        pc = send_entry (i + 1);
        outbox = t.outbox ++ text (s.observers.entry_array i).string ∷ [];
      },
      s,
    )
    else (record t { pc = count_done }, s)
user_step alive count_done t s = (
  record t { pc = wait_end },
  record s {
    readers = record s.readers { reader_done_count = (s.readers.reader_done_count + 1) % int_mod };
  },
)
user_step alive wait_end t s =
    if is_reading s.server_state && not (is_locked s.timer)
    then (t, s)
    else (record t { pc = wait_reading }, s)
user_step alive leave t s =
    (record t { pc = left }, record s { readers = unregister_user s.readers })
user_step alive left t s = (t, s)

module _ (qsort : Qsort) (logfile : Bool) where
  -- a step of `output_sorter`; a loop that waits stays where it is
  unfoldable pub output_sorter : SorterPc → System → System
  output_sorter check_timer s = record s {
    sorter = if get_timer_expired s.timer then reset_timer else check_timer;
  }
  output_sorter reset_timer s = record s {
    timer = set_timer_expired s.timer false;
    sorter = wait_done;
  }
  output_sorter wait_done s = record s {
    sorter =
        if not (is_done s.server_state) && not (is_locked s.timer) then wait_done else set_sorting;
  }
  output_sorter set_sorting s = record s { server_state = sorting; sorter = wait_writers }
  output_sorter wait_writers s = record s {
    sorter =
        if not (s.writer_count == 0) && not (is_locked s.timer) then wait_writers else sort_entries;
  }
  output_sorter sort_entries s = record s {
    observers = sort_entry_array qsort s.observers;
    sorter = set_reading;
  }
  output_sorter set_reading s = record s { server_state = reading; sorter = write_log }
  output_sorter write_log s = record s {
    log = if logfile then s.log ++ print_logfile s.observers ∷ [] else s.log;
    sorter = wait_readers;
  }
  output_sorter wait_readers s = record s {
    sorter =
        if not (are_readers_done s.readers) && not (is_locked s.timer)
        then wait_readers
        else reset_readers;
  }
  output_sorter reset_readers s = record s {
    readers = reset_reader_done_count s.readers;
    sorter = set_done;
  }
  output_sorter set_done s = record s { server_state = done; sorter = check_timer }

  unfoldable pub step : Action → System → System
  step tick s = record s { timer = set_timer_expired s.timer true }
  step sort_step s = output_sorter s.sorter s
  step (observe i input) s =
      let (pc, t) = observer_step input (s.observer i) s in
      record t { observer = update s.observer i pc }
  step (serve i alive) s =
      let (thread, t) = user_step alive (s.user i).pc (s.user i) s in
      record t { user = update s.user i thread }

  -- the system after a schedule, the first action first
  unfoldable pub run : List Action → System → System
  run [] s = s
  run (a ∷ schedule) s = run schedule (step a s)

-- the server before any client has connected
unfoldable pub start : System
start = record {
  timer = initial_timer;
  server_state = done;
  writer_count = 0;
  readers = record { reader_done_count = 0; reader_count = 0 };
  observers = record { observer_count = 0; entry_array_size = 0; entry_array = λ _. clean_entry };
  log = [];
  sorter = check_timer;
  observer = λ _. connect;
  user = λ _. record { pc = join; outbox = [] };
}
