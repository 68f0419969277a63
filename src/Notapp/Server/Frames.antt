-- ===== src/Notapp/Server/Frames.antt =====
-- What a step of a thread that serves a client leaves alone.
use c380_1code.Base.{
  ◌==◌, ◌≡◌, refl, Bool, Bool-cases, inl, inr, none, some, leb, ltb, not, ◌&&◌, ◌||◌, ℕ,
}
use c380_1code.Notapp.ServerData.{int_max, client_max, Observers, Readers, is_locked}
use c380_1code.Notapp.Server.{
  add_entry_step, unregister_step, ObserverPc, UserPc, UserThread, System, Received, observer_step,
  user_step, connect, add_wait, add_enter, add_time, add_string, add_leave, receive, free_entry,
  shrink, uncount, fault, gone, event, disconnect, join, wait_reading, confirm, send_count,
  send_entry, count_done, wait_end, leave, left, is_reading,
}

-- the parts that no observer thread changes
pub record ObserverFrame (s t : System) : Type 0 where
  pub timer : t.timer ≡ s.timer
  pub server_state : t.server_state ≡ s.server_state
  pub readers : t.readers ≡ s.readers
  pub sorter : t.sorter ≡ s.sorter
  pub observer : t.observer ≡ s.observer
  pub user : t.user ≡ s.user

-- the parts that no user thread changes
pub record UserFrame (s t : System) : Type 0 where
  pub timer : t.timer ≡ s.timer
  pub server_state : t.server_state ≡ s.server_state
  pub writer_count : t.writer_count ≡ s.writer_count
  pub observers : t.observers ≡ s.observers
  pub sorter : t.sorter ≡ s.sorter
  pub observer : t.observer ≡ s.observer
  pub user : t.user ≡ s.user

observer_frame :
    (s : System) (writer_count : ℕ) (observers : Observers)
    → ObserverFrame s (record s { writer_count = writer_count; observers = observers })
observer_frame s w o = record {
  timer = refl;
  server_state = refl;
  readers = refl;
  sorter = refl;
  observer = refl;
  user = refl;
}

pub observer_step-ObserverFrame :
    (input : Received) (pc : ObserverPc) (s : System) → ObserverFrame s (observer_step input pc s).1
unfolding observer_step add_entry_step unregister_step
observer_step-ObserverFrame input connect s = observer_frame s _ _
observer_step-ObserverFrame input (add_wait index entry) s = observer_frame s _ _
observer_step-ObserverFrame input (add_enter index entry) s =
    elim (Bool-cases (s.writer_count == int_max)) [
      | inl e ↦ rw e (observer_frame s s.writer_count s.observers)
      | inr e ↦ rw e (observer_frame s _ _)
    ]
observer_step-ObserverFrame input (add_time none entry) s = observer_frame s _ _
observer_step-ObserverFrame input (add_time (some index) entry) s = observer_frame s _ _
observer_step-ObserverFrame input (add_string index entry) s = observer_frame s _ _
observer_step-ObserverFrame input (add_leave index) s = observer_frame s _ _
observer_step-ObserverFrame (event entry) (receive index) s = observer_frame s _ _
observer_step-ObserverFrame disconnect (receive index) s = observer_frame s _ _
observer_step-ObserverFrame input (free_entry index) s = elim (Bool-cases (leb client_max index)) [
  | inl outside ↦ rw outside (observer_frame s _ _)
  | inr inside ↦ rw inside (observer_frame s _ _)
]
observer_step-ObserverFrame input (shrink index) s = observer_frame s _ _
observer_step-ObserverFrame input uncount s = observer_frame s _ _
observer_step-ObserverFrame input fault s = observer_frame s _ _
observer_step-ObserverFrame input gone s = observer_frame s _ _

user_frame : (s : System) (readers : Readers) → UserFrame s (record s { readers = readers })
user_frame s readers = record {
  timer = refl;
  server_state = refl;
  writer_count = refl;
  observers = refl;
  sorter = refl;
  observer = refl;
  user = refl;
}

pub user_step-UserFrame :
    (alive : Bool) (pc : UserPc) (t : UserThread) (s : System)
    → UserFrame s (user_step alive pc t s).1
unfolding user_step
user_step-UserFrame alive join t s = user_frame s _
user_step-UserFrame alive wait_reading t s =
    elim (Bool-cases (is_reading s.server_state || is_locked s.timer)) [
      | inl e ↦ rw e (user_frame s _)
      | inr e ↦ rw e (user_frame s _)
    ]
user_step-UserFrame alive confirm t s = user_frame s _
user_step-UserFrame alive send_count t s = user_frame s _
user_step-UserFrame alive (send_entry i) t s =
    elim (Bool-cases (ltb i s.observers.observer_count)) [
      | inl e ↦ rw e (user_frame s _)
      | inr e ↦ rw e (user_frame s _)
    ]
user_step-UserFrame alive count_done t s = user_frame s _
user_step-UserFrame alive wait_end t s =
    elim (Bool-cases (is_reading s.server_state && not (is_locked s.timer))) [
      | inl e ↦ rw e (user_frame s _)
      | inr e ↦ rw e (user_frame s _)
    ]
user_step-UserFrame alive leave t s = user_frame s _
user_step-UserFrame alive left t s = user_frame s _
