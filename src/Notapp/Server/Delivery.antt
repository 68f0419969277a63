-- ===== src/Notapp/Server/Delivery.antt =====
-- The way of an entry from an observer's thread to the users: one observer, whose thread is not
-- interrupted in `add_entry`, and then a round of `output_sorter`.
use mathlib.Core.List.{Perm, eq-or-mem_of_mem-cons, mem-cons_self, not-mem-nil}
use mathlib.Core.List
use mathlib.Core.List.Perm
use mathlib.Core.Logic.Or
use native.Mathlib.Nat.{ℕ_set}
use c380_1code.Base.{ℕ, ◌≡◌, refl, ap, ◌∙◌, Bool, List, [], ◌∷◌, ◌++◌, update}
use c380_1code.Notapp.Args.{Str}
use c380_1code.Notapp.ServerData.{
  UserEntry, Qsort, sort_entry_array, initial_timer, set_timer_expired, is_locked,
  register_observer, mark, sort_entry_array_comp, send_entries, send_loop,
}
use c380_1code.Notapp.ServerData.Sorting.{IsQsort, sort_entry_array_comp-IsOrder}
use c380_1code.Notapp.Server.{
  System, reading, ObserverPc, receive, event, disconnect, Action, tick, sort_step, observe,
  clean_entry, is_done, get_timer_expired, write_time, write_string, add_entry_step, observer_step,
  output_sorter, step, run, start,
}

-- the steps of `add_entry` by the thread 0
abbrev pub adding : List Action
adding =
    observe 0 disconnect
    ∷ observe 0 disconnect
    ∷ observe 0 disconnect
    ∷ observe 0 disconnect
    ∷ observe 0 disconnect
    ∷ []

-- the entries are read from the socket and added, one after the other
pub delivery : List UserEntry → List Action
delivery [] = []
delivery (e ∷ es) = observe 0 (event e) ∷ (adding ++ delivery es)

-- the timer expires, and `output_sorter` gets to READING
abbrev pub sorting_round : List Action
sorting_round =
    tick ∷ sort_step ∷ sort_step ∷ sort_step ∷ sort_step ∷ sort_step ∷ sort_step ∷ sort_step ∷ []

-- an observer connects and sends the entries, then comes a round
abbrev pub lifecycle : List UserEntry → List Action
lifecycle es = observe 0 disconnect ∷ (adding ++ (delivery es ++ sorting_round))

-- the text of the last entry, or of the one before all
unfoldable pub last_text : Str → List UserEntry → Str
last_text text [] = text
last_text text (e ∷ es) = last_text e.string es

-- the system with one observer, at rest
abbrev resting : (ℕ → UserEntry) → (ℕ → ObserverPc) → System
resting entries threads = record start {
  observers = record { observer_count = 1; entry_array_size = 1; entry_array = entries };
  observer = update threads 0 (receive 0);
}

abbrev written : (ℕ → UserEntry) → UserEntry → ℕ → UserEntry
written entries e =
    let timed = update entries 0 (record (entries 0) { tv_sec = e.tv_sec; tv_usec = e.tv_usec }) in
    update timed 0 (record (timed 0) { string = e.string })

module _ (qsort : Qsort) (logfile : Bool) where
  run-append :
      (before after : List Action) (s : System)
      → run qsort logfile (before ++ after) s ≡ run qsort logfile after (run qsort logfile before s)
  unfolding run
  run-append [] after s = refl
  run-append (a ∷ before) after s = run-append before after (step qsort logfile a s)

  -- where the entries and the threads are after the steps of one entry
  Adds : (ℕ → UserEntry) → (ℕ → ObserverPc) → UserEntry → Type 0
  Adds entries threads e =
      (threads' : ℕ → ObserverPc) × (run qsort logfile (observe 0 (event e) ∷ adding)
          (resting entries threads)
        ≡ resting (written entries e) threads')

  run-adding :
      (entries : ℕ → UserEntry) (threads : ℕ → ObserverPc) (e : UserEntry) → Adds entries threads e
  unfolding Adds run step observer_step add_entry_step is_done write_time write_string start
  run-adding entries threads e = (_, refl)

  Delivers : (ℕ → UserEntry) → (ℕ → ObserverPc) → List UserEntry → Type 0
  Delivers entries threads es =
      (entries' : ℕ → UserEntry) × (threads' : ℕ → ObserverPc) × (run qsort logfile (delivery es)
          (resting entries threads)
        ≡ resting entries' threads')
      × ((entries' 0).string ≡ last_text (entries 0).string es)

  run-delivery :
      (es : List UserEntry) (entries : ℕ → UserEntry) (threads : ℕ → ObserverPc)
      → Delivers entries threads es
  unfolding Delivers Adds run delivery last_text
  run-delivery [] entries threads = (entries, threads, refl, refl)
  run-delivery (e ∷ es) entries threads =
      let (threads₁, added) = run-adding entries threads e in
      let (entries', threads', delivered, text) = run-delivery es (written entries e) threads₁ in
      (
        entries',
        threads',
        run-append (observe 0 (event e) ∷ adding) (delivery es) (resting entries threads)
            ∙ (ap (run qsort logfile (delivery es)) added ∙ delivered),
        text,
      )

  -- the entries in the round's READING
  sorted_once : (ℕ → UserEntry) → ℕ → UserEntry
  sorted_once entries = qsort sort_entry_array_comp 1 entries

  run-sorting_round :
      (entries : ℕ → UserEntry) (threads : ℕ → ObserverPc)
      → ((run qsort logfile sorting_round (resting entries threads)).server_state ≡ reading)
        × (send_entries
              (run qsort logfile sorting_round (resting entries threads)).observers
              (run qsort logfile sorting_round (resting entries threads)).readers
            ≡ record {
              count = 1;
              strings = (sorted_once entries 0).string ∷ [];
              readers = record { reader_done_count = 1; reader_count = 0 };
            })
  unfolding run step output_sorter start set_timer_expired is_locked get_timer_expired is_done
      initial_timer sort_entry_array send_entries send_loop sorted_once
  run-sorting_round entries threads = (refl, refl)

  run-connect :
      (threads : ℕ → ObserverPc) × (entries : ℕ → UserEntry) × (run qsort logfile
          (observe 0 disconnect ∷ adding)
          start
        ≡ resting entries threads)
      × ((entries 0).string ≡ [])
  unfolding run step observer_step add_entry_step is_done write_time write_string start
      register_observer mark clean_entry
  run-connect = (_, _, refl, refl)

pub text_of-Perm : {e f : UserEntry} → Perm (e ∷ []) (f ∷ []) → e.string ≡ f.string
text_of-Perm p =
    Or.elim (List.is_set ℕ_set _ _) (eq-or-mem_of_mem-cons ((Perm.mem_iff p).0 mem-cons_self))
      (λ e. ap (λ x. x.string) e) (λ m. absurd (not-mem-nil m))

-- An observer connects to the server before any other client, and its thread adds the entry without
-- a text and the entries `es`, each without interruption. Then the timer expires and
-- `output_sorter` gets to READING, with a `qsort` that keeps its promise. The entries that a user is
-- sent then are one, with the text of the last entry of `es`, or none if there is no entry in `es`.
pub lifecycle-send_entries :
    (qsort : Qsort) (logfile : Bool) (es : List UserEntry)
    → IsQsort qsort
    → ((run qsort logfile (lifecycle es) start).server_state ≡ reading)
      × (send_entries
            (run qsort logfile (lifecycle es) start).observers
            (run qsort logfile (lifecycle es) start).readers
          ≡ record {
            count = 1;
            strings = last_text [] es ∷ [];
            readers = record { reader_done_count = 1; reader_count = 0 };
          })
unfolding sorted_once Delivers
lifecycle-send_entries qsort logfile es q =
    let (threads, entries, connected, empty) = run-connect qsort logfile in
    let (entries', threads', delivered, text) = run-delivery qsort logfile es entries threads in
    let whole : run qsort logfile (lifecycle es) start
        ≡ run qsort logfile sorting_round (resting entries' threads') =
      run-append qsort logfile (observe 0 disconnect ∷ adding) (delivery es ++ sorting_round) start
      ∙ (ap (run qsort logfile (delivery es ++ sorting_round)) connected
          ∙ (run-append qsort logfile (delivery es) sorting_round (resting entries threads)
              ∙ ap (run qsort logfile sorting_round) delivered)) in
    let (there, sent) = run-sorting_round qsort logfile entries' threads' in
    let same : (qsort sort_entry_array_comp 1 entries' 0).string ≡ last_text [] es =
      text_of-Perm (q.rearranged sort_entry_array_comp 1 entries' sort_entry_array_comp-IsOrder)
      ∙ (text ∙ ap (λ t. last_text t es) empty) in
    rw whole (there, rw same at sent)
