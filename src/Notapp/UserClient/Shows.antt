-- ===== src/Notapp/UserClient/Shows.antt =====
-- A user client shows what the server sends.
use mathlib.Core.List.{append_assoc}
use c380_1code.Base.{
  ℕ, zero, suc, ◌+◌, ◌^◌, ◌<◌, ◌≡◌, refl, sym, ap, ◌∙◌, true, false, some, List, [], ◌∷◌, ◌++◌, map,
  ◌==◌, ltb, length, All, arith,
}
use c380_1code.Notapp.Args.{Str}
use c380_1code.Notapp.ServerData.{Observers, Readers, Sent, send_entries}
use c380_1code.Notapp.ServerData.Reports.{length-send_loop}
use c380_1code.Notapp.Wire.{
  Bytes, take, encode, decode, int_size, disconnect_code, Socket, send_string, read_string,
}
use c380_1code.Notapp.Wire.Numbers.{length-encode, decode-encode, is_disconnect-encode_int}
use c380_1code.Notapp.Wire.Strings.{IsAscii, get-whole, get-take, read_string-send_string}
use c380_1code.Notapp.UserClient.{
  Junk, shown, Setup, closed, rounds_of, print_text, print_first, after_text, read_entries,
  show_entries, user_round, add_round, user_loop, introduce, do_user_client, intro_user,
  success_code, leave,
}

-- the bytes of the strings, and those of a whole report
unfoldable pub texts : List Str → Bytes
texts [] = []
texts (s ∷ strings) = send_string s ++ texts strings

unfoldable pub wire : Sent → Bytes
wire sent = encode int_size sent.count ++ texts sent.strings

unfoldable pub wires : List Sent → Bytes
wires [] = []
wires (sent ∷ reports) = wire sent ++ wires reports

-- the strings that are printed
unfoldable pub nonempty : List Str → List Str
nonempty [] = []
nonempty (s ∷ strings) = print_text s (nonempty strings)

-- a string that arrives: ASCII, and not too long
abbrev pub IsSendable : Str → Type 0
IsSendable s = IsAscii s × (length s + 1 < disconnect_code)

-- what the client sends before the reports, the last of which is no report
unfoldable pub confirmations : ℕ → Bytes
confirmations zero = encode int_size success_code ++ encode int_size disconnect_code
confirmations (suc n) = encode int_size success_code ++ confirmations n

-- the calls before the loop succeed
abbrev pub ready : Setup
ready = record { has_socket = true; has_address = true; connected = true; jumped = false }

-- a report that arrives
abbrev Arrives : Sent → Type 0
Arrives r = (r.count ≡ length r.strings) × (r.count < 2 ^ 31) × All IsSendable r.strings

length-map {ℓ κ} :
    {A : Type ℓ} {B : Type κ} (f : A → B) (xs : List A) → length (map f xs) ≡ length xs
length-map f [] = refl
length-map f (x ∷ xs) = ap suc (length-map f xs)

map-nonempty :
    (moments : List Observers) (d : Readers)
    → map (λ r. nonempty r.strings) (map (λ s. send_entries s d) moments)
      ≡ map (λ s. nonempty (send_entries s d).strings) moments
map-nonempty [] d = refl
map-nonempty (s ∷ moments) d =
    ap (λ l. nonempty (send_entries s d).strings ∷ l) (map-nonempty moments d)

send_entries-Arrives :
    (s : Observers) (d : Readers)
    → s.observer_count < 2 ^ 31
    → All IsSendable (send_entries s d).strings
    → Arrives (send_entries s d)
unfolding send_entries
send_entries-Arrives s d room ok =
    (sym (length-send_loop s.observer_count 0 s.entry_array), room, ok)

All-Arrives :
    (moments : List Observers) (d : Readers)
    → All (λ s. (s.observer_count < 2 ^ 31) × All IsSendable (send_entries s d).strings) moments
    → All Arrives (map (λ s. send_entries s d) moments)
All-Arrives [] d h = tt
All-Arrives (s ∷ moments) d ((room, ok), h) =
    (send_entries-Arrives s d room ok, All-Arrives moments d h)

module _ (socket : Socket) where
  read_entries-step :
      (junk : Junk) (rounds index : ℕ) (stream stream' stream'' : Bytes) (s : Str)
      (screen : List Str)
      → read_string socket (junk.size index) (junk.string index) stream ≡ (some s, stream')
      → read_entries socket junk rounds (index + 1) stream' ≡ some (screen, stream'')
      → read_entries socket junk (suc rounds) index stream ≡ some (print_text s screen, stream'')
  unfolding read_entries after_text print_first
  read_entries-step junk rounds index stream stream' stream'' s screen e r =
      ap (after_text (read_entries socket junk rounds (index + 1))) e ∙ ap (print_first s) r

  read_entries-texts :
      (junk : Junk) (strings : List Str) (index : ℕ) (rest : Bytes)
      → All IsSendable strings
      → read_entries socket junk (length strings) index (texts strings ++ rest)
        ≡ some (nonempty strings, rest)
  unfolding read_entries texts nonempty
  read_entries-texts junk [] index rest h = refl
  read_entries-texts junk (s ∷ strings) index rest ((ascii, short), h) =
      let first : read_string socket (junk.size index) (junk.string index)
            ((send_string s ++ texts strings) ++ rest)
          ≡ (some s, texts strings ++ rest) =
        ap (read_string socket (junk.size index) (junk.string index))
          (append_assoc (send_string s) (texts strings) rest)
        ∙ read_string-send_string socket (junk.size index) (junk.string index) s
            (texts strings ++ rest) ascii short in
      read_entries-step junk (length strings) index _ (texts strings ++ rest) rest s
        (nonempty strings) first (read_entries-texts junk strings (index + 1) rest h)

  -- one round
  user_round-wire :
      (junk : Junk) (sent : Sent) (rest : Bytes)
      → sent.count ≡ length sent.strings
      → sent.count < 2 ^ 31
      → All IsSendable sent.strings
      → user_round socket junk (wire sent ++ rest) ≡ shown (nonempty sent.strings) rest
  unfolding user_round wire show_entries rounds_of
  user_round-wire junk sent rest counted room h =
      let count = encode int_size sent.count in
      let four = length-encode 4 sent.count in
      let got : socket.read int_size ((encode int_size sent.count ++ texts sent.strings) ++ rest)
          ≡ some (encode int_size sent.count, texts sent.strings ++ rest) =
        ap (socket.read int_size) (append_assoc count (texts sent.strings) rest)
        ∙ get-whole socket int_size count (texts sent.strings ++ rest) four in
      let goes_on = is_disconnect-encode_int sent.count junk.count (omega (arith, room)) in
      let some_bytes : (length (encode int_size sent.count) == 0) ≡ false = ground (arith, four) in
      let value : decode (take int_size (count ++ junk.count)) ≡ sent.count =
        ap decode (get-take int_size count junk.count four)
        ∙ decode-encode 4 sent.count (omega (arith, room)) in
      let positive : ltb sent.count (2 ^ 31) ≡ true = ground (arith, room) in
      let all : read_entries socket junk sent.count 0 (texts sent.strings ++ rest)
          ≡ some (nonempty sent.strings, rest) =
        ap (λ n. read_entries socket junk n 0 (texts sent.strings ++ rest)) counted
        ∙ read_entries-texts junk sent.strings 0 rest h in
      rw (got, some_bytes, goes_on, value, positive, all, user_round, show_entries) refl

  -- the connection is closed
  user_round-end : (junk : Junk) → user_round socket junk [] ≡ leave
  unfolding user_round
  user_round-end junk = rw (socket.closed int_size, user_round) refl

  user_loop-step :
      (junk : ℕ → Junk) (rounds : ℕ) (stream stream' : Bytes) (screen : List Str)
      → user_round socket (junk rounds) stream ≡ shown screen stream'
      → user_loop socket junk (suc rounds) stream
        ≡ add_round screen (user_loop socket junk rounds stream')
  unfolding user_loop
  user_loop-step junk rounds stream stream' screen e = rw (e, user_loop) refl

  user_loop-wires :
      (junk : ℕ → Junk) (reports : List Sent)
      → All Arrives reports
      → user_loop socket junk (suc (length reports)) (wires reports)
        ≡ closed (confirmations (length reports)) (map (λ r. nonempty r.strings) reports)
  unfolding user_loop wires confirmations
  user_loop-wires junk [] h = rw (user_round-end (junk 0), user_loop) refl
  user_loop-wires junk (r ∷ reports) ((counted, room, ok), h) =
      let e = user_round-wire (junk (suc (length reports))) r (wires reports) counted room ok in
      user_loop-step junk (suc (length reports)) (wires (r ∷ reports)) (wires reports)
        (nonempty r.strings) e
      ∙ (ap (add_round (nonempty r.strings)) (user_loop-wires junk reports h)
          ∙ unfold add_round in refl)

-- A user client that gets its connection, and to which the server sends the entries of the data
-- `moments`, one report after the other, before it closes the connection: it shows for each report
-- the strings that are not empty, in their order, and sends its identity, a confirmation before each
-- read of a report and at the end the disconnect code. This is for fewer than 2 ^ 31 observers and
-- ASCII strings of fewer than 2 ^ 32 - 11 characters.
pub do_user_client-shows :
    (socket : Socket) (junk : ℕ → Junk) (moments : List Observers) (d : Readers)
    → All (λ s. (s.observer_count < 2 ^ 31) × All IsSendable (send_entries s d).strings) moments
    → do_user_client ready socket junk
        (suc (length moments))
        (wires (map (λ s. send_entries s d) moments))
      ≡ closed
          (encode int_size intro_user ++ confirmations (length moments))
          (map (λ s. nonempty (send_entries s d).strings) moments)
unfolding do_user_client
do_user_client-shows socket junk moments d h =
    let reports = map (λ s. send_entries s d) moments in
    let count = length-map (λ s. send_entries s d) moments in
    ap introduce (
      ap (λ n. user_loop socket junk (suc n) (wires (map (λ s. send_entries s d) moments)))
        (sym count)
      ∙ user_loop-wires socket junk (map (λ s. send_entries s d) moments) (All-Arrives moments d h))
    ∙ unfold introduce in rw (count, map-nonempty moments d) refl
