-- ===== src/Notapp/ServerData/Reports.antt =====
-- What the server tells its users and its logfile about the observers.
use c380_1code.Base.{
  ℕ, zero, suc, ◌+◌, ◌≤◌, ◌<◌, ◌≡◌, refl, sym, ap, ◌∙◌, true, Bool-cases, inl, inr, if◌then◌else◌,
  length, total, sum_from, sum_from-total, arith, ltb,
}
use c380_1code.Notapp.ServerData.{
  UserEntry, Observers, Readers, send_loop, send_entries, logfile_loop, print_logfile,
}
use c380_1code.Notapp.ServerData.Slots.{IsConsistent, taken}

flag_of : (ℕ → UserEntry) → ℕ → ℕ
flag_of entries i = if (entries i).is_taken then 1 else 0

length-logfile_loop :
    (rounds i : ℕ) (entries : ℕ → UserEntry)
    → length (logfile_loop rounds i entries) ≡ sum_from rounds i (flag_of entries)
unfolding logfile_loop sum_from flag_of
length-logfile_loop zero i entries = refl
length-logfile_loop (suc rounds) i entries =
    ground (arith, length-logfile_loop rounds (i + 1) entries)

pub length-send_loop :
    (rounds i : ℕ) (entries : ℕ → UserEntry) → length (send_loop rounds i entries) ≡ rounds
unfolding send_loop
length-send_loop zero i entries = refl
length-send_loop (suc rounds) i entries = ap suc (length-send_loop rounds (i + 1) entries)

-- a sum whose later terms are zero
pub total-stop : (m n : ℕ) (f : ℕ → ℕ) → n ≤ m → ((i : ℕ) → n ≤ i → f i ≡ 0) → total m f ≡ total n f
unfolding total
total-stop zero n f le zeros = let e : n ≡ 0 = omega arith in rw e refl
total-stop (suc m) n f le zeros = elim (Bool-cases (ltb m n)) [
  | inl last ↦ let e : n ≡ suc m = ground (arith, le) in rw e refl
  | inr more ↦
      let here = zeros m (ground arith) in
      omega (arith, here, total-stop m n f (ground arith) zeros)
]

-- On consistent data `print_logfile` prints one line for each registered observer.
pub print_logfile-length :
    (s : Observers) → IsConsistent s → length (print_logfile s) ≡ s.observer_count
unfolding print_logfile flag_of
print_logfile-length s h =
    length-logfile_loop s.entry_array_size 0 s.entry_array
    ∙ (sum_from-total s.entry_array_size (flag_of s.entry_array)
        ∙ (sym (
              total-stop 256 s.entry_array_size (flag_of s.entry_array) h.within
                (λ i le. rw (h.free_above i le) refl))
            ∙ sym h.counted))

logfile_loop-full :
    (rounds i : ℕ) (entries : ℕ → UserEntry)
    → ((j : ℕ) → j < i + rounds → (entries j).is_taken ≡ true)
    → logfile_loop rounds i entries ≡ send_loop rounds i entries
unfolding logfile_loop send_loop
logfile_loop-full zero i entries all = refl
logfile_loop-full (suc rounds) i entries all =
    let here = all i (omega arith) in
    let rest = logfile_loop-full rounds (i + 1) entries (λ j l. all j (omega (arith, l))) in
    rw (here, rest) refl

-- On consistent data without a free entry between the taken ones, `send_entries` sends the strings
-- that `print_logfile` prints, and their number before them.
pub send_entries-print_logfile :
    (s : Observers) (d : Readers)
    → IsConsistent s
    → ((j : ℕ) → j < s.entry_array_size → taken s j ≡ true)
    → ((send_entries s d).count ≡ length (print_logfile s))
      × ((send_entries s d).strings ≡ print_logfile s)
unfolding send_entries print_logfile
send_entries-print_logfile s d h all =
    let lines =
      logfile_loop-full s.entry_array_size 0 s.entry_array (λ j l. all j (omega (arith, l))) in
    let size : s.observer_count ≡ s.entry_array_size =
      sym (print_logfile-length s h)
      ∙ (ap length lines ∙ length-send_loop s.entry_array_size 0 s.entry_array) in
    (sym (print_logfile-length s h), rw size (sym lines))
