-- ===== src/Notapp/ServerData.antt =====
-- Assignment02/server_data.h and server_data.c: the data that the threads of the server share. The
-- static variables are records, one for each mutex, and a function that locks it is one step. An
-- `int` is its 32 bits, compared as a natural number, which is right as long as it is not negative; the
-- index -1 is `none`. The times of the events are not negative.
pub mod Slots
pub mod Timer
pub mod Order
pub mod Reports
pub mod Sorting
use c380_1code.Base.{
  ℕ, zero, suc, ◌+◌, ◌-◌, ◌%◌, ◌^◌, Bool, true, false, not, ◌&&◌, Option, none, some, List, [], ◌∷◌,
  ◌==◌, ltb, leb, if◌then◌else◌, update,
}
use c380_1code.Notapp.Args.{Str}

abbrev pub int_mod : ℕ
int_mod = 2 ^ 32

-- the largest `int`
abbrev pub int_max : ℕ
int_max = 2 ^ 31 - 1

abbrev pub client_max : ℕ
client_max = 256

-- `timer_expired_mutex`
pub record TimerData : Type 0 where
  pub timer_expired : Bool
  pub possible_lock_detected : Bool

unfoldable pub initial_timer : TimerData
initial_timer = record { timer_expired = false; possible_lock_detected = false }

unfoldable pub set_timer_expired : TimerData → Bool → TimerData
set_timer_expired d status = record {
  timer_expired = status;
  possible_lock_detected = if status && d.timer_expired then true else false;
}

unfoldable pub is_locked : TimerData → Bool
is_locked d = d.possible_lock_detected

-- `user_count`
unfoldable pub increment_user_count : ℕ → ℕ
increment_user_count user_count = (user_count + 1) % int_mod

unfoldable pub decrement_user_count : ℕ → ℕ
decrement_user_count user_count = if ltb 0 user_count then user_count - 1 else user_count

-- `reader_count_mutex`
pub record Readers : Type 0 where
  pub reader_done_count : ℕ
  pub reader_count : ℕ

unfoldable pub are_readers_done : Readers → Bool
are_readers_done d = leb d.reader_count d.reader_done_count

unfoldable pub reset_reader_done_count : Readers → Readers
reset_reader_done_count d = record d { reader_done_count = 0 }

unfoldable pub register_user : Readers → Readers
register_user d = record d { reader_count = (d.reader_count + 1) % int_mod }

unfoldable pub unregister_user : Readers → Readers
unregister_user d = record d { reader_count = (d.reader_count + (int_mod - 1)) % int_mod }

-- `struct user_entry`
pub record UserEntry : Type 0 where
  pub is_taken : Bool
  pub tv_sec : ℕ
  pub tv_usec : ℕ
  pub string : Str

-- `entry_array_register_mutex`
pub record Observers : Type 0 where
  pub observer_count : ℕ
  pub entry_array_size : ℕ
  pub entry_array : ℕ → UserEntry

-- `entry_array[index].is_taken = status`
unfoldable pub mark : (ℕ → UserEntry) → ℕ → Bool → ℕ → UserEntry
mark entries index status = update entries index (record (entries index) { is_taken = status })

-- the loop of `register_observer`: the first free entry from `i` on
pub find_free : (rounds i : ℕ) → (ℕ → UserEntry) → Option ℕ
find_free zero i entries = none
find_free (suc rounds) i entries =
    let rest = find_free rounds (i + 1) entries in if (entries i).is_taken then rest else some i

unfoldable pub register_observer : Observers → Option ℕ × Observers
unfolding find_free
register_observer s = elim (find_free s.entry_array_size 0 s.entry_array) [
  | some index ↦ (
    some index,
    record s {
      observer_count = (s.observer_count + 1) % int_mod;
      entry_array = mark s.entry_array index true;
    },
  )
  | none ↦
      if leb (s.entry_array_size + 1) client_max
      then (
        some s.entry_array_size,
        record {
          observer_count = (s.observer_count + 1) % int_mod;
          entry_array_size = s.entry_array_size + 1;
          entry_array = mark s.entry_array s.entry_array_size true;
        },
      )
      else (none, s)
]

unfoldable pub unregister_observer : Observers → Option ℕ → Observers
unregister_observer s none = s
unregister_observer s (some index) = if leb client_max index then s else record {
  observer_count = (s.observer_count + (int_mod - 1)) % int_mod;
  entry_array_size =
      if index + 1 == s.entry_array_size then s.entry_array_size - 1 else s.entry_array_size;
  entry_array = mark s.entry_array index false;
}

-- the results -1, 1 and 0 of a comparison
pub data Comparison : Type 0 where
  minus_one : Comparison
  one : Comparison
  equal : Comparison

unfoldable pub sort_entry_array_comp : UserEntry → UserEntry → Comparison
sort_entry_array_comp e f =
    if ltb f.tv_sec e.tv_sec
    then minus_one
    else if ltb e.tv_sec f.tv_sec
    then one
    else if ltb f.tv_usec e.tv_usec
    then minus_one
    else if ltb e.tv_usec f.tv_usec
    then one
    else equal

-- what `qsort` is: the comparison, the size and the array
abbrev pub Qsort : Type 0
Qsort = (UserEntry → UserEntry → Comparison) → ℕ → (ℕ → UserEntry) → ℕ → UserEntry

unfoldable pub sort_entry_array : Qsort → Observers → Observers
sort_entry_array qsort s = record s {
  entry_array = qsort sort_entry_array_comp s.entry_array_size s.entry_array;
}

-- what `add_entry` writes, once the server state is DONE
unfoldable pub add_entry : Observers → UserEntry → (index : ℕ) → Observers
add_entry s entry index = record s {
  entry_array =
      update s.entry_array index (record entry { is_taken = (s.entry_array index).is_taken });
}

-- the strings of `rounds` entries from `i` on
unfoldable pub send_loop : (rounds i : ℕ) → (ℕ → UserEntry) → List Str
send_loop zero i entries = []
send_loop (suc rounds) i entries = (entries i).string ∷ send_loop rounds (i + 1) entries

-- what `send_entries` sends, and the readers after it
pub record Sent : Type 0 where
  pub count : ℕ
  pub strings : List Str
  pub readers : Readers

unfoldable pub send_entries : Observers → Readers → Sent
unfolding send_loop
send_entries s d = record {
  count = s.observer_count;
  strings = send_loop s.observer_count 0 s.entry_array;
  readers = record d { reader_done_count = (d.reader_done_count + 1) % int_mod };
}

-- the strings that `print_logfile` prints, from the entry `i` on
pub logfile_loop : (rounds i : ℕ) → (ℕ → UserEntry) → List Str
logfile_loop zero i entries = []
logfile_loop (suc rounds) i entries =
    let rest = logfile_loop rounds (i + 1) entries in
    if (entries i).is_taken then (entries i).string ∷ rest else rest

unfoldable pub print_logfile : Observers → List Str
unfolding logfile_loop
print_logfile s = logfile_loop s.entry_array_size 0 s.entry_array
