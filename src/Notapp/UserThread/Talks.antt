-- ===== src/Notapp/UserThread/Talks.antt =====
-- The server's thread and a user client talk to each other.
use mathlib.Core.List.{append_assoc, append-nil}
use c380_1code.Base.{
  ℕ, zero, suc, ◌^◌, ◌<◌, ◌≡◌, refl, sym, ap, ◌∙◌, inl, inr, Bool-cases, some, List, [], ◌∷◌, ◌++◌,
  map, length, All, arith,
}
use c380_1code.Notapp.ServerData.{Observers, Readers, Sent, send_entries}
use c380_1code.Notapp.Wire.{
  Bytes, take, decode, overwrite, drop, encode, int_size, disconnect_code, Socket, is_disconnect,
}
use c380_1code.Notapp.Wire.Numbers.{length-encode, is_disconnect-encode_int}
use c380_1code.Notapp.Wire.Strings.{get-whole}
use c380_1code.Notapp.UserClient.{closed, Junk, do_user_client, intro_user, success_code}
use c380_1code.Notapp.UserClient.Shows.{
  wires, nonempty, IsSendable, confirmations, ready, do_user_client-shows,
}
use c380_1code.Notapp.ObserverThread.{user, dispatch, after_id, accept_client}
use c380_1code.Notapp.UserThread.{
  initial_confirmation, dead, alive, after_confirmation, UserEnd, waiting, left, add_sent,
  user_thread, serve_phase,
}

-- `count` confirmations
unfoldable pub successes : (count : ℕ) → Bytes
successes zero = []
successes (suc count) = encode int_size success_code ++ successes count

-- the two ends of what a client sends: the disconnect code, or the end of the connection
pub data Farewell : Type 0 where
  says_so : Farewell
  hangs_up : Farewell

unfoldable pub farewell : Farewell → Bytes
farewell says_so = encode int_size disconnect_code
farewell hangs_up = []

-- the reports of the phases
abbrev pub reports_of : List (Observers × Readers) → List Sent
reports_of phases = map (λ phase. send_entries phase.0 phase.1) phases

-- the thread after the last confirmation: it leaves in the next phase
unfoldable pub end_of : List (Observers × Readers) → Bytes → UserEnd
end_of [] stream = waiting stream
end_of (phase ∷ phases) stream = left

module _ (socket : Socket) where
  confirmed :
      (confirmation rest : Bytes)
      → after_confirmation confirmation
          (encode int_size success_code ++ rest)
          (socket.read int_size (encode int_size success_code ++ rest))
        ≡ alive (overwrite (encode int_size success_code) confirmation) rest
  unfolding after_confirmation overwrite
  confirmed confirmation rest =
      let code = encode int_size success_code in
      let got = get-whole socket int_size code rest (length-encode 4 1) in
      let goes_on = is_disconnect-encode_int 1 (drop 4 confirmation) (omega arith) in
      rw (got, length-encode 4 1, goes_on, after_confirmation) refl

  hung_up : (confirmation : Bytes) → after_confirmation confirmation [] (some ([], [])) ≡ dead
  unfolding after_confirmation
  hung_up confirmation = elim (Bool-cases (is_disconnect (overwrite [] confirmation))) [
    | inl e ↦ rw (e, after_confirmation) refl
    | inr e ↦ rw (e, after_confirmation) refl
  ]

  parted :
      (confirmation : Bytes) (bye : Farewell)
      → after_confirmation confirmation (farewell bye) (socket.read int_size (farewell bye)) ≡ dead
  unfolding after_confirmation overwrite farewell is_disconnect take decode encode
  parted confirmation says_so =
      let code = encode int_size disconnect_code in
      let got = get-whole socket int_size code [] (length-encode 4 disconnect_code) in
      rw (rw append-nil at got, after_confirmation) refl
  parted confirmation hangs_up =
      ap (after_confirmation confirmation []) (socket.closed int_size) ∙ hung_up confirmation

  -- confirmations for the first phases, and what the thread makes of the rest in the others
  user_thread-answers :
      (phases missed : List (Observers × Readers)) (confirmation tail : Bytes) (end : UserEnd)
      → ((memory : Bytes) → user_thread socket missed memory tail ≡ ([], end))
      → user_thread socket (phases ++ missed) confirmation (successes (length phases) ++ tail)
        ≡ (reports_of phases, end)
  unfolding user_thread successes serve_phase add_sent
  user_thread-answers [] missed confirmation tail end last = last confirmation
  user_thread-answers ((s, d) ∷ phases) missed confirmation tail end last =
      let code = encode int_size success_code in
      let here = confirmed confirmation (successes (length phases) ++ tail) in
      let memory = overwrite code confirmation in
      let later = user_thread-answers phases missed memory tail end last in
      ap (λ stream. user_thread socket ((s, d) ∷ (phases ++ missed)) confirmation stream)
        (append_assoc code (successes (length phases)) tail)
      ∙ (ap (serve_phase (send_entries s d) (user_thread socket (phases ++ missed))) here
          ∙ ap (add_sent (send_entries s d)) later)

  parts :
      (missed : List (Observers × Readers)) (bye : Farewell) (memory : Bytes)
      → user_thread socket missed memory (farewell bye) ≡ ([], end_of missed (farewell bye))
  unfolding user_thread serve_phase end_of
  parts [] bye memory = refl
  parts ((s, d) ∷ missed) bye memory =
      ap (serve_phase (send_entries s d) (user_thread socket missed)) (parted memory bye)

  -- The thread of a user that confirms as many times as there are phases in `phases`, and then sends
  -- the disconnect code or closes the connection: it sends in each of these phases the entries of
  -- that phase. Then it waits for the next phase, in which, when it comes, it leaves.
  pub user_thread-serves :
      (phases missed : List (Observers × Readers)) (confirmation : Bytes) (bye : Farewell)
      → user_thread socket
          (phases ++ missed)
          confirmation
          (successes (length phases) ++ farewell bye)
        ≡ (reports_of phases, end_of missed (farewell bye))
  user_thread-serves phases missed confirmation bye =
      user_thread-answers phases missed confirmation (farewell bye) (end_of missed (farewell bye))
        (parts missed bye)

-- what a user client has sent when it sees the end of the connection
abbrev pub last_words : Bytes
last_words = encode int_size success_code ++ encode int_size disconnect_code

confirmations-successes : (n : ℕ) → confirmations n ≡ successes n ++ last_words
unfolding confirmations successes
confirmations-successes zero = refl
confirmations-successes (suc n) =
    ap (λ bs. encode int_size success_code ++ bs) (confirmations-successes n)
    ∙ sym (append_assoc (encode int_size success_code) (successes n) last_words)

abbrev pub with_readers : Readers → List Observers → List (Observers × Readers)
with_readers d moments = map (λ s. (s, d)) moments

reports_of-with_readers :
    (d : Readers) (moments : List Observers)
    → reports_of (with_readers d moments) ≡ map (λ s. send_entries s d) moments
reports_of-with_readers d [] = refl
reports_of-with_readers d (s ∷ moments) =
    ap (λ reports. send_entries s d ∷ reports) (reports_of-with_readers d moments)

length-with_readers :
    (d : Readers) (moments : List Observers) → length (with_readers d moments) ≡ length moments
length-with_readers d [] = refl
length-with_readers d (s ∷ moments) = ap suc (length-with_readers d moments)

accept_client-user :
    (socket : Socket) (junk rest : Bytes)
    → accept_client socket junk (encode int_size intro_user ++ rest) ≡ user rest
unfolding accept_client after_id dispatch take decode encode
accept_client-user socket junk rest =
    let id : Bytes = encode int_size intro_user in
    ap (after_id junk (id ++ rest)) (get-whole socket int_size id rest refl)

-- A user client whose calls succeed, and the server's thread for it, over fewer than 2 ^ 31 observers
-- and ASCII strings of fewer than 2 ^ 32 - 11 characters. `moments` are the data of the phases of
-- READING until the server closes the connection. `do_server` starts a user thread for what the
-- client sends. The thread sends a report in each phase, and is left waiting for the next one. The
-- client, which reads these reports, shows for each of them the strings that are not empty.
pub user_thread-do_user_client :
    (socket : Socket) (junk : ℕ → Junk) (id_junk : Bytes) (moments : List Observers) (d : Readers)
    → All (λ s. (s.observer_count < 2 ^ 31) × All IsSendable (send_entries s d).strings) moments
    → (to_server stream : Bytes) × (reports : List Sent) × (accept_client socket id_junk to_server
        ≡ user stream)
      × (user_thread socket (with_readers d moments) initial_confirmation stream
          ≡ (reports, waiting last_words))
      × (do_user_client ready socket junk (suc (length moments)) (wires reports)
          ≡ closed to_server (map (λ s. nonempty (send_entries s d).strings) moments))
unfolding user_thread
user_thread-do_user_client socket junk id_junk moments d h =
    let n = length moments in
    let phases = with_readers d moments in
    let answers =
      user_thread-answers socket phases [] initial_confirmation last_words (waiting last_words)
        (λ memory. refl) in
    let sent = confirmations-successes n in
    let e = length-with_readers d moments in
    (
      encode int_size intro_user ++ confirmations n,
      confirmations n,
      map (λ s. send_entries s d) moments,
      accept_client-user socket id_junk (confirmations n),
      rw (sent, sym e, sym (reports_of-with_readers d moments)) (rw append-nil at answers),
      do_user_client-shows socket junk moments d h,
    )
