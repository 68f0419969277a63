-- ===== src/Notapp/Server/States.antt =====
-- The places in the threads of Assignment02/server.c, the data that they share, and who takes a step.
use c380_1code.Base.{ℕ, Bool, Option, List}
use c380_1code.Notapp.Args.{Str}
use c380_1code.Notapp.ServerData.{TimerData, Readers, UserEntry, Observers}

-- `enum server_state`
pub data ServerState : Type 0 where
  done : ServerState
  sorting : ServerState
  reading : ServerState

-- where `output_sorter` stands
pub data SorterPc : Type 0 where
  check_timer : SorterPc
  reset_timer : SorterPc
  wait_done : SorterPc
  set_sorting : SorterPc
  wait_writers : SorterPc
  sort_entries : SorterPc
  set_reading : SorterPc
  write_log : SorterPc
  wait_readers : SorterPc
  reset_readers : SorterPc
  set_done : SorterPc

-- where an `observer_thread` stands, with its index and the entry that it adds; from `add_wait` to
-- `add_leave` it is in `add_entry`, from `free_entry` to `uncount` in `unregister_observer`; after
-- `fault` its behaviour is undefined
pub data ObserverPc : Type 0 where
  connect : ObserverPc
  add_wait : Option ℕ → UserEntry → ObserverPc
  add_enter : Option ℕ → UserEntry → ObserverPc
  add_time : Option ℕ → UserEntry → ObserverPc
  add_string : ℕ → UserEntry → ObserverPc
  add_leave : ℕ → ObserverPc
  receive : ℕ → ObserverPc
  free_entry : ℕ → ObserverPc
  shrink : ℕ → ObserverPc
  uncount : ObserverPc
  fault : ObserverPc
  gone : ObserverPc

-- where a `user_thread` stands; from `send_count` to `count_done` it is in `send_entries`
pub data UserPc : Type 0 where
  join : UserPc
  wait_reading : UserPc
  confirm : UserPc
  send_count : UserPc
  send_entry : ℕ → UserPc
  count_done : UserPc
  wait_end : UserPc
  leave : UserPc
  left : UserPc

-- what is sent to a user
pub data Packet : Type 0 where
  number : ℕ → Packet
  text : Str → Packet

pub record UserThread : Type 0 where
  pub pc : UserPc
  pub outbox : List Packet

pub record System : Type 0 where
  pub timer : TimerData
  pub server_state : ServerState
  pub writer_count : ℕ
  pub readers : Readers
  pub observers : Observers
  pub log : List (List Str)
  pub sorter : SorterPc
  pub observer : ℕ → ObserverPc
  pub user : ℕ → UserThread

-- what an observer's socket yields: an entry, or the end of the connection
pub data Received : Type 0 where
  event : UserEntry → Received
  disconnect : Received

-- the thread that takes the next step, with what its socket yields
pub data Action : Type 0 where
  tick : Action
  sort_step : Action
  observe : (thread : ℕ) → Received → Action
  serve : (thread : ℕ) → (alive : Bool) → Action
