-- ===== src/MemLayout/Print.antt =====
-- `print_mem_layout` of Assignment01/memlayout.c, as the list of the lines that it prints. The array
-- is a function of the index, and `none` is NULL; `region_count` is compared as an `unsigned int`.
use native.Mathlib.Nat.{pow-suc}
use c380_1code.Notapp.Args.{str_eq}
use mathlib.Core.List.{append_assoc}
use c380_1code.Base.{
  false, ◌>>=◌, leb, ◌&&◌, least, ℕ, zero, suc, ◌+◌, ◌-◌, ◌*◌, ◌/◌, ◌%◌, ◌^◌, ◌<◌, ◌≡◌, refl, ap,
  ◌∙◌, inl, inr, Bool-cases, true, Option, none, some, List, [], ◌∷◌, ◌++◌, map, ◌==◌, ltb,
  if◌then◌else◌, codes, arith,
}
use c380_1code.MemLayout.{Memregion, mode_to_string, mem_rw, mem_ro, mem_no, uint_mod}

abbrev pub Text : Type 0
Text = List ℕ

-- a digit, and `%08X` of a number below 16 ^ 8
unfoldable pub hex_digit : ℕ → ℕ
hex_digit d = if ltb d 10 then 48 + d else 55 + d

unfoldable pub hex : (width : ℕ) → ℕ → Text
hex zero v = []
hex (suc width) v = hex width (v / 16) ++ hex_digit (v % 16) ∷ []

unfoldable pub print_line : Memregion → Text
print_line r =
    codes "0x"
    ++ (hex 8 r.from
        ++ (codes "-0x" ++ (hex 8 r.to ++ (codes " " ++ (mode_to_string r.mode ++ codes "\n")))))

-- the loop from `i` on
unfoldable pub print_from : (rounds i region_count : ℕ) → (ℕ → Memregion) → List Text
print_from zero i region_count regions = []
print_from (suc rounds) i region_count regions =
    let rest = print_from rounds (i + 1) region_count regions in
    if ltb i region_count then print_line (regions i) ∷ rest else []

unfoldable pub print_mem_layout : Option (ℕ → Memregion) → (size region_count : ℕ) → List Text
print_mem_layout none size region_count = []
print_mem_layout (some regions) size region_count = print_from size 0 region_count regions

-- A strict reader of the lines: each character is checked.
-- the text behind an expected one
strip : (expected : Text) → Text → Option Text
strip [] s = some s
strip (c ∷ expected) [] = none
strip (c ∷ expected) (d ∷ s) = let rest = strip expected s in if c == d then rest else none

-- a digit: 0 to 9 and A to F
digit_value : ℕ → Option ℕ
digit_value c =
    if leb 48 c && leb c 57
    then some (c - 48)
    else if leb 65 c && leb c 70
    then some (c - 55)
    else none

-- the number of exactly `width` digits, and the text behind it
read_hex : (width seen : ℕ) → Text → Option (ℕ × Text)
unfolding digit_value
read_hex zero seen s = some (seen, s)
read_hex (suc width) seen [] = none
read_hex (suc width) seen (c ∷ s) = digit_value c >>= λ d. read_hex width (16 * seen + d) s

-- "RW", "RO" or "NO" with the end of the line, and nothing behind it
read_mode : Text → Option ℕ
read_mode s =
    if str_eq s (codes "RW\n")
    then some mem_rw
    else if str_eq s (codes "RO\n")
    then some mem_ro
    else if str_eq s (codes "NO\n")
    then some mem_no
    else none

-- the parts of a line, in their order
region_of : (from to : ℕ) → Option ℕ → Option Memregion
region_of from to none = none
region_of from to (some mode) = some (record { from = from; to = to; mode = mode })

read_last : (from to : ℕ) → Option Text → Option Memregion
unfolding region_of read_mode
read_last from to none = none
read_last from to (some s) = region_of from to (read_mode s)

read_to : (from : ℕ) → Option (ℕ × Text) → Option Memregion
unfolding read_last strip
read_to from none = none
read_to from (some (to, s)) = read_last from to (strip (codes " ") s)

read_second : (from : ℕ) → Option Text → Option Memregion
unfolding read_to read_hex
read_second from none = none
read_second from (some s) = read_to from (read_hex 8 0 s)

read_from : Option (ℕ × Text) → Option Memregion
unfolding read_second strip
read_from none = none
read_from (some (from, s)) = read_second from (strip (codes "-0x") s)

read_first : Option Text → Option Memregion
unfolding read_from read_hex
read_first none = none
read_first (some s) = read_from (read_hex 8 0 s)

pub read_line : Text → Option Memregion
unfolding read_first strip
read_line s = read_first (strip (codes "0x") s)

digit_value-hex_digit : (d : ℕ) → d < 16 → digit_value (hex_digit d) ≡ some d
unfolding digit_value hex_digit
digit_value-hex_digit d h = elim (Bool-cases (ltb d 10)) [
  | inl e ↦
      let low : leb 48 (48 + d) ≡ true = ground arith in
      let high : leb (48 + d) 57 ≡ true = ground (arith, e) in
      let value : 48 + d - 48 ≡ d = omega arith in rw (e, low, high, value) refl
  | inr e ↦
      let digit : leb (55 + d) 57 ≡ false = ground (arith, e) in
      let below : leb 48 (55 + d) ≡ true = ground arith in
      let low : leb 65 (55 + d) ≡ true = ground (arith, e) in
      let high : leb (55 + d) 70 ≡ true = ground (arith, h) in
      let value : 55 + d - 55 ≡ d = omega arith in rw (e, below, digit, low, high, value) refl
]

-- one more digit
next_digit : ℕ × Text → Option (ℕ × Text)
unfolding read_hex
next_digit (x, t) = read_hex 1 x t

step-cases :
    (o : Option ℕ) (f g : ℕ → Option (ℕ × Text))
    → ((d : ℕ) → f d ≡ (g d >>= next_digit))
    → (o >>= f) ≡ ((o >>= g) >>= next_digit)
step-cases none f g h = refl
step-cases (some d) f g h = h d

read_hex-last :
    (width seen : ℕ) (s : Text)
    → read_hex (suc width) seen s ≡ (read_hex width seen s >>= next_digit)
unfolding read_hex next_digit
read_hex-last zero seen s = refl
read_hex-last (suc width) seen [] = refl
read_hex-last (suc width) seen (c ∷ s) =
    step-cases (digit_value c) (λ d. read_hex (suc width) (16 * seen + d) s)
      (λ d. read_hex width (16 * seen + d) s) (λ d. read_hex-last width (16 * seen + d) s)

read_hex-hex :
    (width v : ℕ) (rest : Text)
    → v < 16 ^ width
    → read_hex width 0 (hex width v ++ rest) ≡ some (v, rest)
unfolding hex read_hex next_digit
read_hex-hex zero v rest h = let e : v ≡ 0 = omega (arith, h) in rw e refl
read_hex-hex (suc width) v rest h =
    let power = pow-suc 16 width in
    let c = hex_digit (v % 16) in
    let start = read_hex-hex width (v / 16) (c ∷ rest) (omega (arith, h, power)) in
    let last = digit_value-hex_digit (v % 16) (omega arith) in
    let value : 16 * (v / 16) + v % 16 ≡ v = omega arith in
    ap (read_hex (suc width) 0) (append_assoc (hex width (v / 16)) (c ∷ []) rest)
    ∙ (read_hex-last width 0 (hex width (v / 16) ++ c ∷ rest)
        ∙ (ap (λ o. o >>= next_digit) start
            ∙ (ap (λ o. o >>= λ d. some (16 * (v / 16) + d, rest)) last
                ∙ ap (λ x. some (x, rest)) value)))

-- a region that can be read back
abbrev pub IsPrintable : Memregion → Type 0
IsPrintable r = (r.from < uint_mod) × (r.to < uint_mod) × (r.mode < 3)

read_mode-mode_to_string :
    (mode : ℕ) → mode < 3 → read_mode (mode_to_string mode ++ codes "\n") ≡ some mode
unfolding read_mode mode_to_string str_eq
read_mode-mode_to_string mode h = elim (Bool-cases (mode == mem_rw)) [
  | inl a ↦ let e : mode ≡ mem_rw = ground (arith, a) in rw e refl
  | inr a ↦ elim (Bool-cases (mode == mem_ro)) [
    | inl b ↦ let e : mode ≡ mem_ro = ground (arith, b) in rw e refl
    | inr b ↦ let e : mode ≡ mem_no = ground (arith, a, b, h) in rw e refl
  ]
]

read_line-print_line : (r : Memregion) → IsPrintable r → read_line (print_line r) ≡ some r
unfolding read_line read_first read_from read_second read_to read_last region_of strip print_line
read_line-print_line r (from_room, to_room, known) =
    let tail = codes " " ++ (mode_to_string r.mode ++ codes "\n") in
    let from =
      read_hex-hex 8 r.from (codes "-0x" ++ (hex 8 r.to ++ tail)) (omega (arith, from_room)) in
    let to = read_hex-hex 8 r.to tail (omega (arith, to_room)) in
    ap read_from from
    ∙ (ap (read_to r.from) to ∙ ap (region_of r.from r.to) (read_mode-mode_to_string r.mode known))

-- the first `n` regions from `i` on
unfoldable pub listed : (n i : ℕ) → (ℕ → Memregion) → List Memregion
listed zero i regions = []
listed (suc n) i regions = regions i ∷ listed n (i + 1) regions

print_from-listed :
    (rounds i region_count : ℕ) (regions : ℕ → Memregion)
    → ((j : ℕ) → j < i + rounds → j < region_count → IsPrintable (regions j))
    → map read_line (print_from rounds i region_count regions)
      ≡ map some (listed (least rounds (region_count - i)) i regions)
unfolding print_from listed
print_from-listed zero i count regions ok = elim (Bool-cases (ltb 0 (count - i))) [
  | inl e ↦ rw e refl
  | inr e ↦ let none_left : count - i ≡ 0 = ground (arith, e) in rw (e, none_left) refl
]
print_from-listed (suc rounds) i count regions ok = elim (Bool-cases (ltb i count)) [
  | inl e ↦
      let more : least (suc rounds) (count - i) ≡ suc (least rounds (count - (i + 1))) =
        ground (arith, e) in
      let here = read_line-print_line (regions i) (ok i (omega arith) (ground (arith, e))) in
      let rest =
        print_from-listed rounds (i + 1) count regions
          (λ j lt in_range. ok j (omega (arith, lt)) in_range) in
      rw (e, more, here, rest) refl
  | inr e ↦ let over : least (suc rounds) (count - i) ≡ 0 = ground (arith, e) in rw (e, over) refl
]

-- Of regions whose addresses are below 2 ^ 32 and whose modes are the three of the header,
-- `print_mem_layout` prints one line each, as many as the smaller one of the size and the count, in
-- their order. The line of a region consists of "0x" and eight hexadecimal digits for its start, "-0x"
-- and eight for its end, a space, and RW, RO or NO for its mode: a reader that accepts no other line
-- gets the region back. For NULL nothing is printed.
pub print_mem_layout-read_line :
    (regions : ℕ → Memregion) (size region_count : ℕ)
    → ((i : ℕ) → i < size → i < region_count → IsPrintable (regions i))
    → (map read_line (print_mem_layout (some regions) size region_count)
        ≡ map some (listed (least size region_count) 0 regions))
      × (print_mem_layout none size region_count ≡ [])
unfolding print_mem_layout
print_mem_layout-read_line regions size region_count ok = (
  print_from-listed size 0 region_count regions (λ j lt in_range. ok j (omega (arith, lt)) in_range)
      ∙ ap (λ n. map some (listed (least size n) 0 regions)) (omega arith),
  refl,
)
