-- ===== src/Notapp/UserClient.antt =====
-- Assignment02/user_client.c: a user client, from its connection to its end. The results of the
-- calls that connect it, and whether a signal has made it jump back, are arguments. The clearing of
-- the screen and the header line are not modelled: a screen is the list of the strings printed.
pub mod Shows
use c380_1code.Base.{
  ℕ, zero, suc, ◌+◌, ◌^◌, Bool, true, false, ◌||◌, Option, none, some, List, [], ◌∷◌, ◌++◌, ◌==◌,
  ltb, if◌then◌else◌, length,
}
use c380_1code.Notapp.Args.{Str}
use c380_1code.Notapp.Wire.{
  Bytes, take, encode, decode, int_size, disconnect_code, Socket, is_disconnect, read_string,
}

-- `INTRO_OBSERVER` and `INTRO_USER`
abbrev pub intro_observer : ℕ
intro_observer = 0

abbrev pub intro_user : ℕ
intro_user = 1

abbrev pub success_code : ℕ
success_code = 1

-- `index < entry_count` fails at once for a negative `entry_count`
unfoldable pub rounds_of : ℕ → ℕ
rounds_of entry_count = if ltb entry_count (2 ^ 31) then entry_count else 0

-- what a round of the loop does: it leaves the loop, or shows a screen; `fault` is the use of NULL
pub data Round : Type 0 where
  leave : Round
  fault : Round
  shown : (screen : List Str) (stream : Bytes) → Round

-- what memory holds behind the bytes read, for each `read_string` of a round
pub record Junk : Type 0 where
  pub count : Bytes
  pub size : ℕ → Bytes
  pub string : ℕ → Bytes

unfoldable pub print_text : Str → List Str → List Str
print_text text screen = if ltb 0 (length text) then text ∷ screen else screen

-- the screen of the later entries with the text of this one
unfoldable pub print_first : Str → Option (List Str × Bytes) → Option (List Str × Bytes)
print_first string none = none
print_first string (some (screen, stream)) = some (print_text string screen, stream)

-- an entry whose text has been read, or is NULL, and the entries after it
unfoldable pub after_text :
    (Bytes → Option (List Str × Bytes)) → Option Str × Bytes → Option (List Str × Bytes)
after_text next (none, stream) = none
after_text next (some string, stream) = print_first string (next stream)

module _ (socket : Socket) (junk : Junk) where
  -- the loop over the entries, with the screen and what is left to read
  pub read_entries : (rounds index : ℕ) → Bytes → Option (List Str × Bytes)
  read_entries zero index stream = some ([], stream)
  read_entries (suc rounds) index stream =
      after_text (read_entries rounds (index + 1))
        (read_string socket (junk.size index) (junk.string index) stream)

  -- the rest of a round once the bytes of `entry_count` are known
  unfoldable pub show_entries : Bytes → Bytes → Round
  unfolding read_entries
  show_entries count stream =
      elim (read_entries (rounds_of (decode (take int_size count))) 0 stream) [
        | none ↦ fault
        | some (screen, stream') ↦ shown screen stream'
      ]

  -- a round of the `while` loop; `entry_count` is what the last round has left
  unfoldable pub user_round : Bytes → Round
  user_round stream = elim (socket.read int_size stream) [
    | none ↦ if is_disconnect junk.count then leave else show_entries junk.count stream
    | some (count, stream') ↦
        (if (length count == 0) || is_disconnect (count ++ junk.count)
          then leave
          else show_entries (count ++ junk.count) stream')
  ]

-- the results of the calls before the loop; `jumped` is `jump_val` where it is tested first
pub record Setup : Type 0 where
  pub has_socket : Bool
  pub has_address : Bool
  pub connected : Bool
  pub jumped : Bool

-- the end of the client, with what it has sent and shown; `running` is no end: the rounds given
-- have run out
pub data Outcome : Type 0 where
  failed : Outcome
  killed : (sent : Bytes) → Outcome
  closed : (sent : Bytes) (screens : List (List Str)) → Outcome
  crashed : Outcome
  running : Outcome

unfoldable pub add_round : List Str → Outcome → Outcome
add_round screen (closed sent screens) =
    closed (encode int_size success_code ++ sent) (screen ∷ screens)
add_round screen failed = failed
add_round screen (killed sent) = killed sent
add_round screen crashed = crashed
add_round screen running = running

-- the loop of `do_user_client`, and what follows it
pub user_loop : Socket → (ℕ → Junk) → (rounds : ℕ) → Bytes → Outcome
user_loop socket junk zero stream = running
user_loop socket junk (suc rounds) stream = elim (user_round socket (junk rounds) stream) [
  | leave ↦ closed (encode int_size success_code ++ encode int_size disconnect_code) []
  | fault ↦ crashed
  | shown screen stream' ↦ add_round screen (user_loop socket junk rounds stream')
]

-- the message by which the client makes itself known
unfoldable pub introduce : Outcome → Outcome
introduce (closed sent screens) = closed (encode int_size intro_user ++ sent) screens
introduce failed = failed
introduce (killed sent) = killed sent
introduce crashed = crashed
introduce running = running

unfoldable pub do_user_client : Setup → Socket → (ℕ → Junk) → (rounds : ℕ) → Bytes → Outcome
unfolding user_loop
do_user_client setup socket junk rounds stream =
    if setup.has_socket
    then if setup.has_address
      then if setup.connected
        then if setup.jumped
          then killed (encode int_size disconnect_code)
          else introduce (user_loop socket junk rounds stream)
        else failed
      else failed
    else failed
