-- ===== src/Notapp/Server/Race.antt =====
-- What the test in `add_entry`, apart from the increment of the writer count, lets happen.
use c380_1code.Base.{ℕ, ◌≡◌, refl, ap, ◌∙◌, Bool, List, [], ◌∷◌, ◌++◌}
use c380_1code.Notapp.ServerData.{
  UserEntry, Readers, Qsort, sort_entry_array, sort_entry_array_comp, initial_timer,
  set_timer_expired, is_locked, register_observer, mark, send_entries, send_loop,
}
use c380_1code.Notapp.ServerData.Sorting.{IsQsort, sort_entry_array_comp-IsOrder}
use c380_1code.Notapp.Server.{
  System, reading, event, disconnect, Action, tick, sort_step, observe, clean_entry, is_done,
  get_timer_expired, write_time, write_string, add_entry_step, observer_step, output_sorter, step,
  run, start,
}
use c380_1code.Notapp.Server.Delivery.{adding, text_of-Perm}

-- An observer connects, its first entry is added, and it gets one more, for which it passes the test
-- of the state in `add_entry`. The timer expires, and `output_sorter` waits for no writer. Then the
-- observer goes on to increment the count, the sorter to sort and to set READING, and the observer
-- to write the time.
abbrev pub race : UserEntry → List Action
race e =
    observe 0 disconnect
    ∷ (adding
        ++ (observe 0 (event e)
            ∷ observe 0 disconnect
            ∷ tick
            ∷ sort_step
            ∷ sort_step
            ∷ sort_step
            ∷ sort_step
            ∷ sort_step
            ∷ observe 0 disconnect
            ∷ sort_step
            ∷ sort_step
            ∷ observe 0 disconnect
            ∷ []))

module _ (qsort : Qsort) (logfile : Bool) (e : UserEntry) where
  abbrev pub raced : System
  raced = run qsort logfile (race e) start

  abbrev pub raced_further : System
  raced_further = step qsort logfile (observe 0 disconnect) raced

  -- the array when it is sorted
  unsorted : ℕ → UserEntry
  unsorted = (run qsort logfile (observe 0 disconnect ∷ adding) start).observers.entry_array

  Races : Type 0
  Races =
      (raced.server_state ≡ reading)
      × (raced.writer_count ≡ 1)
      × ((d : Readers)
          → (send_entries raced.observers d).strings
            ≡ (qsort sort_entry_array_comp 1 unsorted 0).string ∷ [])
      × ((unsorted 0).string ≡ [])
      × (raced_further.server_state ≡ reading)
      × ((d : Readers) → (send_entries raced_further.observers d).strings ≡ e.string ∷ [])

  races : Races
  unfolding Races unsorted run step output_sorter observer_step add_entry_step is_done write_time
      write_string start register_observer mark clean_entry set_timer_expired is_locked
      get_timer_expired initial_timer sort_entry_array send_entries send_loop
  races = (refl, refl, λ d. refl, refl, refl, λ d. refl)

-- In the schedule `race` of a new server, with a `qsort` that keeps its promise, `output_sorter` has
-- found no writer, sorted the entries and set the state READING, while the observer's thread, which
-- has passed the test in `add_entry` before, is counted as the one writer. A user that is sent the
-- entries now gets the text before the event, which is empty. The next step of the observer's thread
-- writes the text of the event, still in READING, and a user that is sent the entries after it gets
-- that text instead.
pub add_entry-races :
    (qsort : Qsort) (logfile : Bool) (e : UserEntry) (d : Readers)
    → IsQsort qsort
    → ((raced qsort logfile e).server_state ≡ reading)
      × ((raced qsort logfile e).writer_count ≡ 1)
      × ((send_entries (raced qsort logfile e).observers d).strings ≡ [] ∷ [])
      × ((raced_further qsort logfile e).server_state ≡ reading)
      × ((send_entries (raced_further qsort logfile e).observers d).strings ≡ e.string ∷ [])
unfolding Races
add_entry-races qsort logfile e d q =
    let (reads, counted, before, empty, still, after) = races qsort logfile e in
    let same = text_of-Perm (
      q.rearranged sort_entry_array_comp 1 (unsorted qsort logfile e)
        sort_entry_array_comp-IsOrder) in
    (reads, counted, before d ∙ ap (λ t. t ∷ []) (same ∙ empty), still, after d)
