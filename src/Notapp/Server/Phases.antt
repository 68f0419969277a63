-- ===== src/Notapp/Server/Phases.antt =====
-- The server state follows the phases of `output_sorter`.
use c380_1code.Base.{◌≡◌, ◌∙◌, sym, ap, Bool, List, [], ◌∷◌, arith}
use c380_1code.Notapp.ServerData.{Qsort}
use c380_1code.Notapp.Server.{
  ServerState, done, sorting, reading, SorterPc, check_timer, reset_timer, wait_done, set_sorting,
  wait_writers, sort_entries, set_reading, write_log, wait_readers, reset_readers, set_done, System,
  Action, tick, sort_step, observe, serve, output_sorter, step, run,
}
use c380_1code.Notapp.Server.Frames.{observer_step-ObserverFrame, user_step-UserFrame}

-- the state in which `output_sorter` stands where it stands
unfoldable pub phase_of : SorterPc → ServerState
phase_of check_timer = done
phase_of reset_timer = done
phase_of wait_done = done
phase_of set_sorting = done
phase_of wait_writers = sorting
phase_of sort_entries = sorting
phase_of set_reading = sorting
phase_of write_log = reading
phase_of wait_readers = reading
phase_of reset_readers = reading
phase_of set_done = reading

abbrev pub InPhase : System → Type 0
InPhase s = s.server_state ≡ phase_of s.sorter

module _ (qsort : Qsort) (logfile : Bool) where
  output_sorter-InPhase :
      (s : System) (pc : SorterPc)
      → s.server_state ≡ phase_of pc
      → InPhase (output_sorter qsort logfile pc s)
  unfolding output_sorter phase_of
  output_sorter-InPhase s check_timer h = ground arith
  output_sorter-InPhase s pc h = ground arith

  pub step-InPhase : (a : Action) (s : System) → InPhase s → InPhase (step qsort logfile a s)
  unfolding step
  step-InPhase tick s h = h
  step-InPhase sort_step s h = output_sorter-InPhase s s.sorter h
  step-InPhase (observe i input) s h =
      let f = observer_step-ObserverFrame input (s.observer i) s in
      f.server_state ∙ (h ∙ ap phase_of (sym f.sorter))
  step-InPhase (serve i alive) s h =
      let f = user_step-UserFrame alive (s.user i).pc (s.user i) s in
      f.server_state ∙ (h ∙ ap phase_of (sym f.sorter))

  -- Whatever the threads do and in whatever order, from a server whose state fits the place of
  -- `output_sorter`: the state is SORTING while it waits for the writers and sorts, READING while it
  -- writes the logfile and waits for the readers, until it has reset them, and DONE otherwise.
  pub run-InPhase :
      (schedule : List Action) (s : System)
      → s.server_state ≡ phase_of s.sorter
      → (run qsort logfile schedule s).server_state ≡ phase_of (run qsort logfile schedule s).sorter
  unfolding run
  run-InPhase [] s h = h
  run-InPhase (a ∷ schedule) s h =
      run-InPhase schedule (step qsort logfile a s) (step-InPhase a s h)
