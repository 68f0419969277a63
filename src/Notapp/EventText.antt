-- ===== src/Notapp/EventText.antt =====
-- Assignment02/server.c: the text that `observer_thread` makes of an event. A buffer of `buf_size`
-- characters that a text does not fit makes the behaviour undefined. The bits of the masks are
-- those of sys/inotify.h, which is not part of the repository: they are a parameter. Times are not
-- negative.
pub mod Digits
pub mod Bounds
use c380_1code.Base.{
  ℕ, zero, suc, ◌+◌, ◌-◌, ◌/◌, ◌%◌, ◌^◌, Bool, true, false, ◌||◌, Option, none, some, List, [], ◌∷◌,
  ◌++◌, ◌==◌, ltb, if◌then◌else◌, length, codes,
}
use c380_1code.Notapp.Args.{Str}
use c380_1code.Notapp.ServerData.{UserEntry}
use c380_1code.Notapp.Server.{clean_entry}
use c380_1code.Notapp.Wire.{take, buf_size}
use c380_1code.Notapp.Message.{Time}

-- the masks of inotify that the server names
pub data Flag : Type 0 where
  in_access : Flag
  in_attrib : Flag
  in_close_write : Flag
  in_close_nowrite : Flag
  in_create : Flag
  in_delete : Flag
  in_delete_self : Flag
  in_modify : Flag
  in_move_self : Flag
  in_moved_from : Flag
  in_moved_to : Flag
  in_open : Flag
  in_ignored : Flag
  in_isdir : Flag
  in_q_overflow : Flag
  in_unmount : Flag

-- `strcat` into a buffer of `buf_size` characters; `none` is a write behind its end
unfoldable pub strcat : Str → Str → Option Str
strcat buf text = if ltb (length buf + length text) buf_size then some (buf ++ text) else none

-- `snprintf` into such a buffer with the size `BUF_SIZE - 1`
unfoldable pub snprintf : Str → Str
snprintf text = take (buf_size - 2) text

-- `%ld`, with no more digits than a 64-bit number has
unfoldable pub digits : ℕ → ℕ → Str
digits zero v = []
digits (suc n) v =
    let rest = digits n (v / 10) in if ltb v 10 then (48 + v) ∷ [] else rest ++ (48 + v % 10) ∷ []

abbrev pub decimal : ℕ → Str
decimal v = digits 20 v

unfoldable pub zeros : ℕ → Str
zeros zero = []
zeros (suc n) = 48 ∷ zeros n

-- `%06ld`
unfoldable pub decimal6 : ℕ → Str
decimal6 v = zeros (6 - length (decimal v)) ++ decimal v

-- the texts in the order of the tests
unfoldable pub mask_names : List (Flag × Str)
mask_names =
    (in_access, codes "IN_ACCESS ")
    ∷ (in_attrib, codes "IN_ATTRIB ")
    ∷ (in_close_write, codes "IN_CLOSE_WRITE ")
    ∷ (in_close_nowrite, codes "IN_CLOSE_NO_WRITE ")
    ∷ (in_create, codes "IN_CREATE ")
    ∷ (in_delete, codes "IN_DELETE ")
    ∷ (in_delete_self, codes "IN_DELETE_SELF ")
    ∷ (in_modify, codes "IN_MODIFY ")
    ∷ (in_move_self, codes "IN_MOVE_SELF ")
    ∷ (in_moved_from, codes "IN_MOVED_FROM ")
    ∷ (in_moved_to, codes "IN_MOVED_TO ")
    ∷ (in_open, codes "IN_OPEN ")
    ∷ (in_ignored, codes "IN_IGNORED ")
    ∷ (in_isdir, codes "IN_ISDIR ")
    ∷ (in_q_overflow, codes "IN_Q_OVERFLOW ")
    ∷ (in_unmount, codes "IN_UNMOUNT ")
    ∷ []

module _ (bit : Flag → ℕ) where
  -- `mask & flag`
  unfoldable pub has_flag : ℕ → Flag → Bool
  has_flag mask flag = (mask / 2 ^ bit flag) % 2 == 1

  -- the `if`s of `translate_masks`, one after the other
  unfoldable pub add_masks : List (Flag × Str) → (mask : ℕ) → Option Str → Option Str
  add_masks [] mask buf = buf
  add_masks (name ∷ names) mask none = none
  add_masks (name ∷ names) mask (some buf) =
      add_masks names mask (if has_flag mask name.0 then strcat buf name.1 else some buf)

  unfoldable pub translate_masks : Option Str → (mask : ℕ) → Option Str
  unfolding mask_names
  translate_masks buf mask = add_masks mask_names mask buf

unfoldable pub strcat_next : Option Str → Str → Option Str
strcat_next none text = none
strcat_next (some buf) text = strcat buf text

-- the name of the file and a space, where there is a name
unfoldable pub add_name : (event_loc : Option Str) → Option Str → Option Str
add_name none buf = buf
add_name (some name) buf = strcat_next (strcat_next buf name) (32 ∷ [])

module _ (bit : Flag → ℕ) (host monitored : Str) where
  -- `msg_buf` for an event; `event_loc` is the name of the file if there is one
  unfoldable pub format_message : Time → (event_loc : Option Str) → (mask : ℕ) → Option Str
  format_message tv event_loc mask =
      let time = snprintf (decimal tv.sec ++ (46 ∷ (decimal6 tv.usec ++ 9 ∷ []))) in
      let hosted = strcat time (snprintf (host ++ 9 ∷ [])) in
      let located = strcat_next hosted (snprintf (monitored ++ 9 ∷ [])) in
      translate_masks bit (add_name event_loc located) mask

  unfoldable pub make_entry : Time → (event_loc : Option Str) → (mask : ℕ) → Option UserEntry
  make_entry tv event_loc mask = elim (format_message tv event_loc mask) [
    | none ↦ none
    | some text ↦ some (record clean_entry { tv_sec = tv.sec; tv_usec = tv.usec; string = text })
  ]
