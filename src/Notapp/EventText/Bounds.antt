-- ===== src/Notapp/EventText/Bounds.antt =====
-- The text of an event, and when it fits its buffer.
use mathlib.Core.List.{append_assoc, append-nil}
use c380_1code.Base.{
  ℕ, zero, suc, ◌+◌, ◌≤◌, ◌≡◌, refl, ap, ◌∙◌, true, false, inl, inr, Bool-cases, Option, none, some,
  List, [], ◌∷◌, ◌++◌, ltb, if◌then◌else◌, length, length-append, arith,
}
use c380_1code.Notapp.Args.{Str}
use c380_1code.Notapp.Wire.{take, buf_size}
use c380_1code.Notapp.Message.{Time}
use c380_1code.Notapp.EventText.{
  Flag, strcat, snprintf, decimal, decimal6, mask_names, has_flag, add_masks, translate_masks,
  add_name, strcat_next, format_message,
}
use c380_1code.Notapp.EventText.Digits.{length-digits, length-decimal6}

-- a text that fits its buffer
abbrev pub fitting : Str → Option Str
fitting text = if ltb (length text) buf_size then some text else none

fitting-long : (buf text : Str) → ltb (length buf) buf_size ≡ false → fitting (buf ++ text) ≡ none
fitting-long buf text long =
    let sum = length-append buf text in
    let e : ltb (length (buf ++ text)) buf_size ≡ false = ground (arith, long, sum) in rw e refl

strcat-fitting : (buf text : Str) → strcat buf text ≡ fitting (buf ++ text)
unfolding strcat
strcat-fitting buf text = rw (length-append buf text) refl

strcat_next-fitting : (buf text : Str) → strcat_next (fitting buf) text ≡ fitting (buf ++ text)
unfolding strcat_next
strcat_next-fitting buf text = elim (Bool-cases (ltb (length buf) buf_size)) [
  | inl fits ↦ rw fits (strcat-fitting buf text)
  | inr long ↦ rw (long, fitting-long buf text long) refl
]

-- the names of a mask's flags, in the order of the list
unfoldable pub flag_names : (Flag → ℕ) → List (Flag × Str) → (mask : ℕ) → Str
flag_names bit [] mask = []
flag_names bit (name ∷ names) mask =
    let rest = flag_names bit names mask in
    if has_flag bit mask name.0 then name.1 ++ rest else rest

add_masks-none :
    (bit : Flag → ℕ) (names : List (Flag × Str)) (mask : ℕ) → add_masks bit names mask none ≡ none
unfolding add_masks
add_masks-none bit [] mask = refl
add_masks-none bit (name ∷ names) mask = refl

add_masks-fitting :
    (bit : Flag → ℕ) (names : List (Flag × Str)) (mask : ℕ) (buf : Str)
    → add_masks bit names mask (fitting buf) ≡ fitting (buf ++ flag_names bit names mask)
unfolding add_masks flag_names
add_masks-fitting bit [] mask buf = rw (append-nil buf) refl
add_masks-fitting bit (name ∷ names) mask buf = elim (Bool-cases (ltb (length buf) buf_size)) [
  | inl fits ↦ elim (Bool-cases (has_flag bit mask name.0)) [
    | inl on ↦
        rw (fits, on, strcat-fitting buf name.1)
          (add_masks-fitting bit names mask (buf ++ name.1)
            ∙ ap fitting (append_assoc buf name.1 (flag_names bit names mask)))
    | inr off ↦
        rw (fits, off)
          (ap (add_masks bit names mask) (rw fits refl) ∙ add_masks-fitting bit names mask buf)
  ]
  | inr long ↦ rw (long, fitting-long buf (flag_names bit (name ∷ names) mask) long) refl
]

-- a name with the space that follows it
unfoldable pub name_text : Option Str → Str
name_text none = []
name_text (some name) = name ++ 32 ∷ []

abbrev pub time_text : Time → Str
time_text tv = decimal tv.sec ++ (46 ∷ (decimal6 tv.usec ++ 9 ∷ []))

-- the text of an event, with no regard to the end of the buffer
unfoldable pub event_text : (Flag → ℕ) → (host monitored : Str) → Time → Option Str → ℕ → Str
event_text bit host monitored tv name mask =
    (((snprintf (time_text tv) ++ snprintf (host ++ 9 ∷ [])) ++ snprintf (monitored ++ 9 ∷ []))
      ++ name_text name)
    ++ flag_names bit mask_names mask

add_name-fitting :
    (place : Str) (name : Option Str)
    → add_name name (fitting place) ≡ fitting (place ++ name_text name)
unfolding add_name name_text
add_name-fitting place none = rw (append-nil place) refl
add_name-fitting place (some n) =
    rw (strcat_next-fitting place n)
      (strcat_next-fitting (place ++ n) (32 ∷ []) ∙ ap fitting (append_assoc place n (32 ∷ [])))

-- The message of an event is the time, the host, the monitored path, the name if there is one, and
-- the names of the flags of its mask, if that is shorter than the buffer; else the code writes
-- behind the buffer's end.
pub format_message-exact :
    (bit : Flag → ℕ) (host monitored : Str) (tv : Time) (name : Option Str) (mask : ℕ)
    → format_message bit host monitored tv name mask ≡ (
        if ltb (length (event_text bit host monitored tv name mask)) buf_size
        then some (event_text bit host monitored tv name mask)
        else none)
unfolding format_message event_text translate_masks
format_message-exact bit host monitored tv name mask =
    let time = snprintf (time_text tv) in
    let hosted = snprintf (host ++ 9 ∷ []) in
    let located = snprintf (monitored ++ 9 ∷ []) in
    let place : strcat_next (strcat time hosted) located ≡ fitting ((time ++ hosted) ++ located) =
      ap (λ b. strcat_next b located) (strcat-fitting time hosted)
      ∙ strcat_next-fitting (time ++ hosted) located in
    ap (λ b. add_masks bit mask_names mask (add_name name b)) place
    ∙ (ap (add_masks bit mask_names mask) (add_name-fitting ((time ++ hosted) ++ located) name)
        ∙ add_masks-fitting bit mask_names mask (((time ++ hosted) ++ located) ++ name_text name))

length-time_text : (tv : Time) → length (time_text tv) ≤ 42
length-time_text tv =
    let sum = length-append (decimal tv.sec) (46 ∷ (decimal6 tv.usec ++ 9 ∷ [])) in
    let tail = length-append (decimal6 tv.usec) (9 ∷ []) in
    omega (arith, sum, tail, length-digits 20 tv.sec, length-decimal6 tv.usec)

-- the length of all names
all_length : List (Flag × Str) → ℕ
all_length [] = 0
all_length (name ∷ names) = length name.1 + all_length names

length-flag_names :
    (bit : Flag → ℕ) (names : List (Flag × Str)) (mask : ℕ)
    → length (flag_names bit names mask) ≤ all_length names
unfolding flag_names all_length
length-flag_names bit [] mask = omega arith
length-flag_names bit (name ∷ names) mask =
    let rest = length-flag_names bit names mask in
    elim (Bool-cases (has_flag bit mask name.0)) [
      | inl on ↦
          let sum = length-append name.1 (flag_names bit names mask) in
          rw on (omega (arith, rest, sum))
      | inr off ↦ rw off (omega (arith, rest))
    ]

all_length-mask_names : all_length mask_names ≡ 190
unfolding all_length mask_names
all_length-mask_names = refl

take-all : (n : ℕ) (s : Str) → length s ≤ n → take n s ≡ s
unfolding take
take-all zero [] h = refl
take-all zero (c ∷ s) h = absurd (omega (arith, h))
take-all (suc n) [] h = refl
take-all (suc n) (c ∷ s) h = ap (λ l. c ∷ l) (take-all n s (omega (arith, h)))

snprintf-whole : (s : Str) → length s ≤ 1022 → snprintf s ≡ s
unfolding snprintf
snprintf-whole s h = take-all 1022 s h

-- With a host of at most 16 characters, and a monitored path that has at most 773 characters
-- together with the name of the file and the space behind it, the message fits its buffer, whatever
-- the flags and the time, and no part of it is cut off.
pub format_message-fits :
    (bit : Flag → ℕ) (host monitored : Str) (tv : Time) (name : Option Str) (mask : ℕ)
    → length host ≤ 16
    → length monitored + length (name_text name) ≤ 773
    → format_message bit host monitored tv name mask
      ≡ some (
          (((time_text tv ++ (host ++ 9 ∷ [])) ++ (monitored ++ 9 ∷ [])) ++ name_text name)
          ++ flag_names bit mask_names mask)
unfolding event_text
format_message-fits bit host monitored tv name mask short room =
    let host' = length-append host (9 ∷ []) in
    let monitored' = length-append monitored (9 ∷ []) in
    let time = time_text tv in
    let flags = flag_names bit mask_names mask in
    let time_length = length-time_text tv in
    let flags_length = length-flag_names bit mask_names mask in
    let all = all_length-mask_names in
    let e1 = length-append time (host ++ 9 ∷ []) in
    let e2 = length-append (time ++ (host ++ 9 ∷ [])) (monitored ++ 9 ∷ []) in
    let e3 = length-append ((time ++ (host ++ 9 ∷ [])) ++ (monitored ++ 9 ∷ [])) (name_text name) in
    let e4 =
      length-append (((time ++ (host ++ 9 ∷ [])) ++ (monitored ++ 9 ∷ [])) ++ name_text name)
        flags in
    let whole : event_text bit host monitored tv name mask
        ≡ (((time ++ (host ++ 9 ∷ [])) ++ (monitored ++ 9 ∷ [])) ++ name_text name) ++ flags =
      rw
        (
          snprintf-whole time (omega (arith, time_length)),
          snprintf-whole (host ++ 9 ∷ []) (omega (arith, host', short)),
          snprintf-whole (monitored ++ 9 ∷ []) (omega (arith, monitored', room)),
        )
        refl in
    let fits : ltb
          (length
            ((((time ++ (host ++ 9 ∷ [])) ++ (monitored ++ 9 ∷ [])) ++ name_text name) ++ flags))
          buf_size
        ≡ true =
      ground
        (arith, short, room, host', monitored', time_length, flags_length, all, e1, e2, e3, e4) in
    format_message-exact bit host monitored tv name mask ∙ rw (whole, fits) refl
