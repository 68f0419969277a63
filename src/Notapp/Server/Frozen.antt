-- ===== src/Notapp/Server/Frozen.antt =====
-- The entries while the server state is READING.
use c380_1code.Base.{
  ℕ, ◌+◌, ◌<◌, ◌≡◌, refl, ◌∙◌, sym, ap, Bool, true, false, ◌&&◌, Bool-cases, Option-cases, inl, inr,
  Option, List, [], ◌∷◌, ◌==◌, leb, if◌then◌else◌, arith,
}
use c380_1code.Notapp.ServerData.{
  Qsort, UserEntry, Observers, client_max, mark, find_free, register_observer,
}
use c380_1code.Notapp.Server.{
  add_entry_step, unregister_step, ServerState, ObserverPc, System, Received, Action, tick,
  sort_step, observe, serve, observer_step, output_sorter, step, run, is_done, is_reading, reading,
  connect, add_wait, add_enter, add_time, add_string, add_leave, receive, free_entry, shrink,
  uncount, fault, gone, event, disconnect, SorterPc, write_log, wait_readers, reset_readers,
  set_done,
}
use c380_1code.Notapp.Server.Frames.{user_step-UserFrame}
use c380_1code.Notapp.Server.Phases.{phase_of, step-InPhase}
use c380_1code.Notapp.Server.Writers.{below, all_below}

-- what users are shown of an entry
pub record SameText (e f : UserEntry) : Type 0 where
  pub tv_sec : f.tv_sec ≡ e.tv_sec
  pub tv_usec : f.tv_usec ≡ e.tv_usec
  pub string : f.string ≡ e.string

abbrev pub SameTexts : Observers → Observers → Type 0
SameTexts s t = (j : ℕ) → SameText (s.entry_array j) (t.entry_array j)

same-SameTexts : (s : Observers) → SameTexts s s
same-SameTexts s = λ j. record { tv_sec = refl; tv_usec = refl; string = refl }

trans-SameTexts : (r s t : Observers) → SameTexts r s → SameTexts s t → SameTexts r t
trans-SameTexts r s t h k = λ j. record {
  tv_sec = (k j).tv_sec ∙ (h j).tv_sec;
  tv_usec = (k j).tv_usec ∙ (h j).tv_usec;
  string = (k j).string ∙ (h j).string;
}

mark-SameText :
    (entries : ℕ → UserEntry) (index : ℕ) (status : Bool) (j : ℕ)
    → SameText (entries j) (mark entries index status j)
unfolding mark
mark-SameText entries index status j = elim (Bool-cases (j == index)) [
  | inl e ↦
      let at : j ≡ index = ground arith in
      rw (e, at) (record { tv_sec = refl; tv_usec = refl; string = refl })
  | inr e ↦ rw e (record { tv_sec = refl; tv_usec = refl; string = refl })
]

register_observer-SameTexts : (s : Observers) → SameTexts s (register_observer s).1
unfolding register_observer
register_observer-SameTexts s = elim (Option-cases (find_free s.entry_array_size 0 s.entry_array)) [
  | inr (k, found) ↦ rw (found, register_observer) (λ j. mark-SameText s.entry_array k true j)
  | inl none_free ↦ elim (Bool-cases (leb (s.entry_array_size + 1) client_max)) [
    | inl room ↦
        rw (none_free, room, register_observer)
          (λ j. mark-SameText s.entry_array s.entry_array_size true j)
    | inr full ↦ rw (none_free, full, register_observer) (same-SameTexts s)
  ]
]

-- no thread is in `add_entry` past the test of the state
unfoldable pub is_quiet : ObserverPc → Bool
is_quiet (add_enter index entry) = false
is_quiet (add_time index entry) = false
is_quiet (add_string index entry) = false
is_quiet _ = true

not-yet :
    (state : ServerState)
    → is_reading state ≡ true
    → (index : Option ℕ) (entry : UserEntry)
    → is_quiet (if is_done state then add_enter index entry else add_wait index entry) ≡ true
unfolding is_reading is_done is_quiet
not-yet reading h index entry = refl
not-yet other h index entry = ground (arith, h)

observer_step-quiet :
    (input : Received) (pc : ObserverPc) (s : System)
    → is_reading s.server_state ≡ true
    → is_quiet pc ≡ true
    → (is_quiet (observer_step input pc s).0 ≡ true)
      × SameTexts s.observers (observer_step input pc s).1.observers
unfolding observer_step add_entry_step unregister_step is_quiet is_reading is_done
observer_step-quiet input connect s h q = (refl, register_observer-SameTexts s.observers)
observer_step-quiet input (add_wait index entry) s h q =
    (not-yet s.server_state h index entry, same-SameTexts s.observers)
observer_step-quiet input (add_enter index entry) s h q = absurd (ground arith)
observer_step-quiet input (add_time index entry) s h q = absurd (ground arith)
observer_step-quiet input (add_string index entry) s h q = absurd (ground arith)
observer_step-quiet input (add_leave index) s h q = (refl, same-SameTexts s.observers)
observer_step-quiet (event entry) (receive index) s h q = (refl, same-SameTexts s.observers)
observer_step-quiet disconnect (receive index) s h q = (refl, same-SameTexts s.observers)
observer_step-quiet input (free_entry index) s h q = elim (Bool-cases (leb client_max index)) [
  | inl outside ↦ rw outside (refl, same-SameTexts s.observers)
  | inr inside ↦ rw inside (refl, λ j. mark-SameText s.observers.entry_array index false j)
]
observer_step-quiet input (shrink index) s h q = (refl, same-SameTexts s.observers)
observer_step-quiet input uncount s h q = (refl, same-SameTexts s.observers)
observer_step-quiet input fault s h q = (refl, same-SameTexts s.observers)
observer_step-quiet input gone s h q = (refl, same-SameTexts s.observers)

module _ (qsort : Qsort) (logfile : Bool) (n : ℕ) where
  -- the server state stays READING up to the end of the schedule
  unfoldable pub stays_reading : List Action → System → Bool
  stays_reading [] s = is_reading s.server_state
  stays_reading (a ∷ schedule) s =
      is_reading s.server_state && stays_reading schedule (step qsort logfile a s)

  output_sorter-frozen :
      (pc : SorterPc) (s : System)
      → is_reading (phase_of pc) ≡ true
      → ((output_sorter qsort logfile pc s).observer ≡ s.observer)
        × SameTexts s.observers (output_sorter qsort logfile pc s).observers
  unfolding output_sorter phase_of is_reading
  output_sorter-frozen write_log s h = (refl, same-SameTexts s.observers)
  output_sorter-frozen wait_readers s h = (refl, same-SameTexts s.observers)
  output_sorter-frozen reset_readers s h = (refl, same-SameTexts s.observers)
  output_sorter-frozen set_done s h = (refl, same-SameTexts s.observers)
  output_sorter-frozen pc s h = absurd (ground arith)

  abbrev pub AllQuiet : System → Type 0
  AllQuiet s = (i : ℕ) → i < n → is_quiet (s.observer i) ≡ true

  step-frozen :
      (a : Action) (s : System)
      → below n a ≡ true
      → s.server_state ≡ phase_of s.sorter
      → is_reading s.server_state ≡ true
      → AllQuiet s
      → AllQuiet (step qsort logfile a s) × SameTexts s.observers (step qsort logfile a s).observers
  unfolding step below
  step-frozen tick s lt phase h quiet = (quiet, same-SameTexts s.observers)
  step-frozen sort_step s lt phase h quiet =
      let (same, texts) = output_sorter-frozen s.sorter s (ap is_reading (sym phase) ∙ h) in
      (λ i l. rw same (quiet i l), texts)
  step-frozen (observe i input) s lt phase h quiet =
      let within : i < n = ground arith in
      let (still, texts) = observer_step-quiet input (s.observer i) s h (quiet i within) in
      (λ j l. elim (Bool-cases (j == i)) [ inl e ↦ rw e still | inr e ↦ rw e (quiet j l) ], texts)
  step-frozen (serve i alive) s lt phase h quiet =
      let f = user_step-UserFrame alive (s.user i).pc (s.user i) s in
      (λ j l. rw f.observer (quiet j l), rw f.observers (same-SameTexts s.observers))

  -- While the server state stays READING and none of the observer threads, all below `n`, was past
  -- the test in `add_entry` when it began: in every order of the steps of all threads the times and
  -- the strings of all entries stay as they are.
  pub run-frozen :
      (schedule : List Action) (s : System)
      → all_below n schedule ≡ true
      → s.server_state ≡ phase_of s.sorter
      → AllQuiet s
      → stays_reading schedule s ≡ true
      → SameTexts s.observers (run qsort logfile schedule s).observers
  unfolding run all_below stays_reading
  run-frozen [] s lt phase quiet h = same-SameTexts s.observers
  run-frozen (a ∷ schedule) s lt phase quiet h =
      let first : below n a ≡ true = ground arith in
      let here : is_reading s.server_state ≡ true = ground arith in
      let (quiet', texts) = step-frozen a s first phase here quiet in
      trans-SameTexts s.observers (step qsort logfile a s).observers
        (run qsort logfile (a ∷ schedule) s).observers texts
        (run-frozen schedule (step qsort logfile a s) (rw first at lt)
          (step-InPhase qsort logfile a s phase) quiet' (rw here at h))
