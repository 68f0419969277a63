-- ===== src/Notapp/Server/Sprint.antt =====
-- The release of a possible lock: how the timer brings `output_sorter` back to its first phase.
use c380_1code.Base.{
  ℕ, suc, ◌+◌, ◌≤◌, ◌<◌, ◌≡◌, ◌≢◌, ◌==◌, refl, ◌∙◌, ap, Bool, true, Bool-cases, inl, inr, List, [],
  ◌∷◌, ◌++◌, arith,
}
use c380_1code.Notapp.ServerData.{Qsort, TimerData, set_timer_expired, is_locked}
use c380_1code.Notapp.Server.{
  SorterPc, check_timer, reset_timer, wait_done, set_sorting, wait_writers, sort_entries,
  set_reading, write_log, wait_readers, reset_readers, set_done, System, Action, tick, sort_step,
  observe, serve, output_sorter, step, run, done,
}
use c380_1code.Notapp.Server.Phases.{phase_of, run-InPhase}
use c380_1code.Notapp.Server.Frames.{observer_step-ObserverFrame, user_step-UserFrame}

-- how many steps `output_sorter` is away from the end of its round if it need not wait
unfoldable pub distance : SorterPc → ℕ
distance check_timer = 0
distance reset_timer = 10
distance wait_done = 9
distance set_sorting = 8
distance wait_writers = 7
distance sort_entries = 6
distance set_reading = 5
distance write_log = 4
distance wait_readers = 3
distance reset_readers = 2
distance set_done = 1

-- the steps of `output_sorter` in a schedule
unfoldable pub sorter_steps : List Action → ℕ
sorter_steps [] = 0
sorter_steps (sort_step ∷ schedule) = suc (sorter_steps schedule)
sorter_steps (a ∷ schedule) = sorter_steps schedule

-- a lock is detected, and the timer has expired since
record IsStuck (d : TimerData) : Type 0 where
  locked : is_locked d ≡ true
  expired : d.timer_expired ≡ true

module _ (qsort : Qsort) (logfile : Bool) where
  -- away from the start of a round a step of a sorter that is stuck brings it nearer to the end
  output_sorter-nearer :
      (s : System) (pc : SorterPc)
      → IsStuck s.timer
      → 0 < distance pc
      → distance pc < 10
      → (distance (output_sorter qsort logfile pc s).sorter + 1 ≡ distance pc)
        × IsStuck (output_sorter qsort logfile pc s).timer
  unfolding output_sorter distance
  output_sorter-nearer s check_timer h some_left inside = absurd (omega arith)
  output_sorter-nearer s reset_timer h some_left inside = absurd (omega arith)
  output_sorter-nearer s wait_done h some_left inside = (ground (arith, h.locked), h)
  output_sorter-nearer s set_sorting h some_left inside = (refl, h)
  output_sorter-nearer s wait_writers h some_left inside = (ground (arith, h.locked), h)
  output_sorter-nearer s sort_entries h some_left inside = (refl, h)
  output_sorter-nearer s set_reading h some_left inside = (refl, h)
  output_sorter-nearer s write_log h some_left inside = (refl, h)
  output_sorter-nearer s wait_readers h some_left inside = (ground (arith, h.locked), h)
  output_sorter-nearer s reset_readers h some_left inside = (refl, h)
  output_sorter-nearer s set_done h some_left inside = (refl, h)

  -- the other threads leave the sorter where it is, and the lock detected
  others-IsStuck :
      (a : Action) (s : System)
      → sorter_steps (a ∷ []) ≡ 0
      → IsStuck s.timer
      → ((step qsort logfile a s).sorter ≡ s.sorter) × IsStuck (step qsort logfile a s).timer
  unfolding step sorter_steps set_timer_expired is_locked
  others-IsStuck tick s other h =
      (refl, record { locked = ground (arith, h.expired); expired = refl })
  others-IsStuck sort_step s other h = absurd (omega arith)
  others-IsStuck (observe i input) s other h =
      let f = observer_step-ObserverFrame input (s.observer i) s in (f.sorter, rw f.timer h)
  others-IsStuck (serve i alive) s other h =
      let f = user_step-UserFrame alive (s.user i).pc (s.user i) s in (f.sorter, rw f.timer h)

  inside-round : (pc : SorterPc) → pc ≢ reset_timer → distance pc < 10
  unfolding distance
  inside-round reset_timer ne = absurd (ne refl)
  inside-round pc ne = omega arith

  at_check : (pc : SorterPc) → distance pc ≡ 0 → pc ≡ check_timer
  unfolding distance
  at_check check_timer e = refl
  at_check pc e = absurd (omega (arith, e))

  record Nearer (s : System) (schedule : List Action) : Type 0 where
    stuck : IsStuck s.timer
    inside : distance s.sorter < 10
    enough : distance s.sorter ≤ sorter_steps schedule

  other :
      (a : Action) (schedule : List Action) (s : System)
      → IsStuck s.timer
      → distance s.sorter < 10
      → distance s.sorter ≤ sorter_steps schedule
      → sorter_steps (a ∷ []) ≡ 0
      → Nearer (step qsort logfile a s) schedule
  other a schedule s h inside enough e =
      let (same, stuck) = others-IsStuck a s e h in
      let there = ap distance same in
      record {
        stuck = stuck;
        inside = omega (arith, there, inside);
        enough = omega (arith, there, enough);
      }

  sprint-step :
      (a : Action) (schedule : List Action) (s : System)
      → IsStuck s.timer
      → distance s.sorter < 10
      → distance s.sorter ≤ sorter_steps (a ∷ schedule)
      → 0 < distance s.sorter
      → Nearer (step qsort logfile a s) schedule
  unfolding sorter_steps step
  sprint-step sort_step schedule s h inside enough some_left =
      let (near, stuck) = output_sorter-nearer s s.sorter h some_left inside in
      record {
        stuck = stuck;
        inside = omega (arith, near, inside);
        enough = omega (arith, near, enough);
      }
  sprint-step tick schedule s h inside enough some_left = other tick schedule s h inside enough refl
  sprint-step (observe i input) schedule s h inside enough some_left =
      other (observe i input) schedule s h inside enough refl
  sprint-step (serve i alive) schedule s h inside enough some_left =
      other (serve i alive) schedule s h inside enough refl

  sprint :
      (schedule : List Action) (s : System)
      → IsStuck s.timer
      → distance s.sorter < 10
      → distance s.sorter ≤ sorter_steps schedule
      → (before after : List Action) × (schedule ≡ before ++ after)
        × ((run qsort logfile before s).sorter ≡ check_timer)
  unfolding run sorter_steps
  sprint [] s h inside enough = ([], [], refl, at_check s.sorter (omega (arith, enough)))
  sprint (a ∷ schedule) s h inside enough = elim (Bool-cases (distance s.sorter == 0)) [
    | inl arrived ↦ ([], a ∷ schedule, refl, at_check s.sorter (ground arith))
    | inr under_way ↦
        let next = sprint-step a schedule s h inside enough (ground arith) in
        let (before, after, e, there) =
          sprint schedule (step qsort logfile a s) next.stuck next.inside next.enough in
        (a ∷ before, after, ap (λ l. a ∷ l) e, there)
  ]

  -- Once a lock is detected and the timer has expired, with `output_sorter` anywhere but about to reset
  -- the timer: in every order of the steps of all threads in which `output_sorter` takes at least
  -- nine, it gets to the end of its round, with the server state DONE, whatever the others do.
  pub locked-returns :
      (schedule : List Action) (s : System)
      → is_locked s.timer ≡ true
      → s.timer.timer_expired ≡ true
      → s.sorter ≢ reset_timer
      → s.server_state ≡ phase_of s.sorter
      → 9 ≤ sorter_steps schedule
      → (before after : List Action) × (schedule ≡ before ++ after)
        × ((run qsort logfile before s).sorter ≡ check_timer)
        × ((run qsort logfile before s).server_state ≡ done)
  unfolding phase_of
  locked-returns schedule s locked expired away phase enough =
      let inside = inside-round s.sorter away in
      let (before, after, e, there) =
        sprint schedule s (record { locked = locked; expired = expired }) inside
          (omega (arith, inside, enough)) in
      (before, after, e, there, run-InPhase qsort logfile before s phase ∙ ap phase_of there)
