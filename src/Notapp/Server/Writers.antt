-- ===== src/Notapp/Server/Writers.antt =====
-- The writer count: how many observer threads are between the increment and the decrement in
-- `add_entry`, and what `output_sorter` can conclude from it.
use c380_1code.Base.{
  ℕ, zero, suc, ◌+◌, ◌≤◌, ◌<◌, ◌≡◌, refl, ◌∙◌, sym, ap, Bool, true, false, Bool-cases, inl, inr,
  none, some, List, [], ◌∷◌, ◌==◌, ltb, if◌then◌else◌, total, total-change, le-total, update, arith,
}
use c380_1code.Notapp.ServerData.{Qsort, int_max, is_locked}
use c380_1code.Notapp.Server.{
  add_entry_step, unregister_step, ObserverPc, System, Received, Action, tick, sort_step, observe,
  serve, observer_step, output_sorter, step, run, connect, add_wait, add_enter, add_time,
  add_string, add_leave, receive, free_entry, shrink, uncount, fault, gone, event, disconnect,
  SorterPc, wait_writers, sort_entries,
}
use c380_1code.Notapp.Server.Frames.{observer_step-ObserverFrame, user_step-UserFrame}

-- 1 where the thread has incremented the writer count and not yet decremented it
unfoldable pub writes : ObserverPc → ℕ
writes (add_time index entry) = 1
writes (add_string index entry) = 1
writes (add_leave index) = 1
writes fault = 1
writes _ = 0

-- all the actions are of observer threads below `n`
unfoldable pub below : ℕ → Action → Bool
below n (observe i input) = ltb i n
below n a = true

unfoldable pub all_below : ℕ → List Action → Bool
all_below n [] = true
all_below n (a ∷ schedule) = if below n a then all_below n schedule else false

unfoldable pub writers : ℕ → (ℕ → ObserverPc) → ℕ
writers n observer = total n (λ i. writes (observer i))

writes-le : (pc : ObserverPc) → writes pc ≤ 1
unfolding writes
writes-le (add_time index entry) = omega arith
writes-le pc = omega arith

writers-le : (n : ℕ) (observer : ℕ → ObserverPc) → writers n observer ≤ n
unfolding writers total
writers-le zero observer = omega arith
writers-le (suc n) observer = omega (arith, writers-le n observer, writes-le (observer n))

writers-update :
    (n i : ℕ) (observer : ℕ → ObserverPc) (pc : ObserverPc)
    → i < n
    → writers n (update observer i pc) + writes (observer i) ≡ writers n observer + writes pc
unfolding writers
writers-update n i observer pc h =
    let at : (i == i) ≡ true = ground arith in
    let change =
      total-change n i (λ j. writes (update observer i pc j)) (λ j. writes (observer j)) h
        (λ j l ne. let out : (j == i) ≡ false = ground arith in rw out refl) in
    rw at at change

writes-le-writers :
    (n i : ℕ) (observer : ℕ → ObserverPc) → i < n → writes (observer i) ≤ writers n observer
unfolding writers
writes-le-writers n i observer h = le-total n i (λ j. writes (observer j)) h

-- a step of an observer thread changes the count as it changes `writes`
writer_count-step :
    (input : Received) (pc : ObserverPc) (s : System)
    → s.writer_count < int_max
    → writes pc ≤ s.writer_count
    → (observer_step input pc s).1.writer_count + writes pc
      ≡ s.writer_count + writes (observer_step input pc s).0
unfolding observer_step add_entry_step unregister_step writes
writer_count-step input connect s room h = refl
writer_count-step input (add_wait index entry) s room h = ground arith
writer_count-step input (add_enter index entry) s room h =
    let below : (s.writer_count == int_max) ≡ false = ground (arith, room) in
    rw below (omega (arith, room))
writer_count-step input (add_time none entry) s room h = refl
writer_count-step input (add_time (some index) entry) s room h = refl
writer_count-step input (add_string index entry) s room h = refl
writer_count-step input (add_leave index) s room h = omega (arith, room, h)
writer_count-step (event entry) (receive index) s room h = refl
writer_count-step disconnect (receive index) s room h = refl
writer_count-step input (free_entry index) s room h = ground arith
writer_count-step input (shrink index) s room h = refl
writer_count-step input uncount s room h = refl
writer_count-step input fault s room h = refl
writer_count-step input gone s room h = refl

equal-zero : (c : ℕ) → (c == 0) ≡ true → c ≡ 0
equal-zero c e = ground arith

stays : wait_writers ≡ sort_entries → ⊥
stays e = ground arith

module _ (qsort : Qsort) (logfile : Bool) (n : ℕ) (few : n < int_max) where
  abbrev IsCounted : System → Type 0
  IsCounted s = s.writer_count ≡ writers n s.observer

  -- `output_sorter` does not touch the count or the observer threads
  output_sorter-IsCounted :
      (pc : SorterPc) (s : System) → IsCounted s → IsCounted (output_sorter qsort logfile pc s)
  unfolding output_sorter
  output_sorter-IsCounted SorterPc.check_timer s h = h
  output_sorter-IsCounted pc s h = h

  step-IsCounted :
      (a : Action) (s : System)
      → below n a ≡ true
      → IsCounted s
      → IsCounted (step qsort logfile a s)
  unfolding step below
  step-IsCounted tick s lt h = h
  step-IsCounted sort_step s lt h = output_sorter-IsCounted s.sorter s h
  step-IsCounted (serve i alive) s lt h =
      let f = user_step-UserFrame alive (s.user i).pc (s.user i) s in
      f.writer_count ∙ (h ∙ ap (writers n) (sym f.observer))
  step-IsCounted (observe i input) s lt h =
      let within : i < n = ground arith in
      let few_writers = writers-le n s.observer in
      let change = writers-update n i s.observer (observer_step input (s.observer i) s).0 within in
      let count =
        writer_count-step input (s.observer i) s (omega (arith, h, few_writers, few))
          (omega (arith, writes-le-writers n i s.observer within, h)) in
      let f = observer_step-ObserverFrame input (s.observer i) s in omega (arith, count, change, h)

  -- If fewer than 2 ^ 31 - 1 observer threads take steps, then in every order of the steps of all threads
  -- the writer count stays the number of the observer threads that have incremented it in `add_entry`
  -- and have not yet decremented it.
  pub run-IsCounted :
      (schedule : List Action) (s : System)
      → all_below n schedule ≡ true
      → s.writer_count ≡ writers n s.observer
      → (run qsort logfile schedule s).writer_count
        ≡ writers n (run qsort logfile schedule s).observer
  unfolding run all_below
  run-IsCounted [] s lt h = h
  run-IsCounted (a ∷ schedule) s lt h =
      let first : below n a ≡ true = ground arith in
      run-IsCounted schedule (step qsort logfile a s) (rw first at lt) (step-IsCounted a s first h)

  -- For fewer than 2 ^ 31 - 1 observer threads: when the count is right and no lock is detected,
  -- `output_sorter` leaves its wait for the writers only if none of the `n` observer threads has
  -- incremented the count without having decremented it.
  pub sort_entries-quiet :
      (s : System) (i : ℕ)
      → s.writer_count ≡ writers n s.observer
      → s.sorter ≡ wait_writers
      → is_locked s.timer ≡ false
      → (step qsort logfile sort_step s).sorter ≡ sort_entries
      → i < n
      → writes (s.observer i) ≡ 0
  unfolding step output_sorter
  sort_entries-quiet s i h at free next within = elim (Bool-cases (s.writer_count == 0)) [
    | inl none_left ↦
        omega
          (arith, writes-le-writers n i s.observer within, h, equal-zero s.writer_count none_left)
    | inr some_left ↦ absurd (stays (rw (at, some_left, free) at next))
  ]
