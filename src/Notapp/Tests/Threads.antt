-- ===== src/Notapp/Tests/Threads.antt =====
-- Runs of the server's threads, and the theorems about them at concrete schedules.
use c380_1code.Base.{ℕ, ◌<◌, ◌≡◌, ◌≢◌, refl, true, false, some, List, [], ◌∷◌, ◌++◌, arith, total}
use c380_1code.Notapp.ServerData.{
  Qsort, register_observer, is_locked, set_timer_expired, initial_timer,
}
use c380_1code.Notapp.Server.{
  add_entry_step, unregister_step, System, disconnect, Action, tick, sort_step, observe, serve,
  done, check_timer, reset_timer, wait_writers, add_enter, clean_entry, start, run, step,
  output_sorter, observer_step, user_step, is_done, is_reading, get_timer_expired,
}
use c380_1code.Notapp.Server.Phases.{phase_of, run-InPhase}
use c380_1code.Notapp.Server.Writers.{
  writes, writers, all_below, below, run-IsCounted, sort_entries-quiet,
}
use c380_1code.Notapp.Server.Sprint.{sorter_steps, locked-returns}
use c380_1code.Notapp.Server.Frozen.{is_quiet, SameTexts, stays_reading, run-frozen}

-- a sort that leaves the entries as they are
abbrev unsorted : Qsort
unsorted comparison size entries = entries

runs : Unit {0}
unfolding run step output_sorter observer_step add_entry_step unregister_step user_step is_done
    is_reading get_timer_expired set_timer_expired is_locked
runs = tt

-- the first observer passes the test in `add_entry`; the timer expires, and `output_sorter` gets to
-- its wait for the writers
abbrev racing_schedule : List Action
racing_schedule =
    observe 0 disconnect
    ∷ observe 0 disconnect
    ∷ tick
    ∷ sort_step
    ∷ sort_step
    ∷ sort_step
    ∷ sort_step
    ∷ []

abbrev racing : System
unfolding run
racing = run unsorted false racing_schedule start

racing_output :
    (racing.sorter ≡ wait_writers) × (racing.observer 0 ≡ add_enter (some 0) clean_entry)
unfolding racing runs start register_observer
racing_output = (refl, refl)

run-InPhase_example :
    (run unsorted false racing_schedule start).server_state
    ≡ phase_of (run unsorted false racing_schedule start).sorter
unfolding start phase_of
run-InPhase_example = run-InPhase unsorted false racing_schedule start refl

run-IsCounted_example :
    (run unsorted false racing_schedule start).writer_count
    ≡ writers 1 (run unsorted false racing_schedule start).observer
unfolding start writers writes all_below below total
run-IsCounted_example = run-IsCounted unsorted false 1 (omega arith) racing_schedule start refl refl

racing-IsCounted : racing.writer_count ≡ writers 1 racing.observer
unfolding writers writes total racing runs start register_observer
racing-IsCounted = refl

sort_entries-quiet_example : writes (racing.observer 0) ≡ 0
unfolding racing runs start register_observer initial_timer
sort_entries-quiet_example =
    sort_entries-quiet unsorted false 1 (omega arith) racing 0 racing-IsCounted refl refl refl
      (omega arith)

-- the observer stays before its write; the timer expires twice more
abbrev stuck : System
unfolding run
stuck = run unsorted false (sort_step ∷ observe 0 disconnect ∷ tick ∷ tick ∷ []) racing

abbrev nine_turns : List Action
nine_turns =
    sort_step ∷ sort_step ∷ sort_step ∷ sort_step ∷ sort_step ∷ sort_step ∷ sort_step ∷ sort_step
    ∷ sort_step ∷ []

stuck_away : stuck.sorter ≢ reset_timer
unfolding stuck racing runs start register_observer
stuck_away = λ e. ground arith

locked-returns_example :
    (before after : List Action) × (nine_turns ≡ before ++ after)
    × ((run unsorted false before stuck).sorter ≡ check_timer)
    × ((run unsorted false before stuck).server_state ≡ done)
unfolding stuck racing runs start register_observer phase_of sorter_steps
locked-returns_example =
    locked-returns unsorted false nine_turns stuck refl refl stuck_away refl (omega arith)

-- one observer waits, and the server state is READING
abbrev in_reading : System
unfolding run
in_reading =
    run unsorted false
      (observe 0 disconnect
        ∷ tick
        ∷ sort_step
        ∷ sort_step
        ∷ sort_step
        ∷ sort_step
        ∷ sort_step
        ∷ sort_step
        ∷ sort_step
        ∷ [])
      start

abbrev reading_schedule : List Action
reading_schedule = observe 0 disconnect ∷ sort_step ∷ serve 0 true ∷ serve 0 true ∷ []

in_reading_quiet : (i : ℕ) → i < 1 → is_quiet (in_reading.observer i) ≡ true
unfolding in_reading runs start register_observer is_quiet
in_reading_quiet i l = let e : i ≡ 0 = omega (arith, l) in rw e refl

run-frozen_example :
    SameTexts in_reading.observers (run unsorted false reading_schedule in_reading).observers
unfolding in_reading runs start register_observer phase_of all_below below stays_reading
run-frozen_example =
    run-frozen unsorted false 1 reading_schedule in_reading refl refl in_reading_quiet refl
