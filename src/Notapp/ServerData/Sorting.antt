-- ===== src/Notapp/ServerData/Sorting.antt =====
-- The sort of the entries, with `qsort` as its documentation has it.
use mathlib.Core.List.{Perm, Permᴰ}
use mathlib.Core.Path.{ap₂}
use mathlib.Core.Logic.{∥∥₁_elim}
use native.Mathlib.Nat.{ℕ_set}
use c380_1code.Base.{
  ℕ, zero, suc, ◌+◌, ◌≤◌, ◌<◌, ◌≡◌, ◌≢◌, refl, sym, ap, ◌∙◌, ◌⊎◌, false, List, [], ◌∷◌,
  if◌then◌else◌, total, arith,
}
use c380_1code.Notapp.ServerData.{
  UserEntry, Observers, Comparison, one, sort_entry_array_comp, Qsort, sort_entry_array,
}
use c380_1code.Notapp.ServerData.Slots.{IsConsistent, count_taken}
use c380_1code.Notapp.ServerData.Order.{
  opposite, sort_entry_array_comp-swap, sort_entry_array_comp-transitive,
}
use c380_1code.Notapp.ServerData.Reports.{total-stop}

-- the first `n` entries
abbrev pub first_entries : ℕ → (ℕ → UserEntry) → List UserEntry
first_entries zero entries = []
first_entries (suc n) entries = entries 0 ∷ first_entries n (λ i. entries (suc i))

-- what `qsort` asks of a comparison
pub record IsOrder (comparison : UserEntry → UserEntry → Comparison) : Type 0 where
  pub swap : (e f : UserEntry) → comparison f e ≡ opposite (comparison e f)
  pub transitive :
      (e f g : UserEntry) → comparison e f ≢ one → comparison f g ≢ one → comparison e g ≢ one

-- what `qsort` promises: the first `size` entries are rearranged so that none stands before one
-- that the comparison puts first, and the others stay
pub record IsQsort (qsort : Qsort) : Type 0 where
  pub sorted :
      (comparison : UserEntry → UserEntry → Comparison) (size : ℕ) (entries : ℕ → UserEntry)
      (i j : ℕ)
      → IsOrder comparison
      → i < j
      → j < size
      → comparison (qsort comparison size entries i) (qsort comparison size entries j) ≢ one
  pub rearranged :
      (comparison : UserEntry → UserEntry → Comparison) (size : ℕ) (entries : ℕ → UserEntry)
      → IsOrder comparison
      → Perm (first_entries size (qsort comparison size entries)) (first_entries size entries)
  pub untouched :
      (comparison : UserEntry → UserEntry → Comparison) (size : ℕ) (entries : ℕ → UserEntry) (i : ℕ)
      → size ≤ i
      → qsort comparison size entries i ≡ entries i

-- the first entry is not older than the second
abbrev pub NotOlder : UserEntry → UserEntry → Type 0
NotOlder e f = (f.tv_sec < e.tv_sec) ⊎ ((f.tv_sec ≡ e.tv_sec) × (f.tv_usec ≤ e.tv_usec))

pub sort_entry_array_comp-IsOrder : IsOrder sort_entry_array_comp
sort_entry_array_comp-IsOrder = record {
  swap = sort_entry_array_comp-swap;
  transitive = sort_entry_array_comp-transitive;
}

sort_entry_array_comp-NotOlder : (e f : UserEntry) → sort_entry_array_comp e f ≢ one → NotOlder e f
unfolding sort_entry_array_comp
sort_entry_array_comp-NotOlder e f h = ground arith

flag : UserEntry → ℕ
flag e = if e.is_taken then 1 else 0

tally : List UserEntry → ℕ
tally [] = 0
tally (e ∷ es) = flag e + tally es

tally-Permᴰ : {es fs : List UserEntry} → Permᴰ es fs → tally es ≡ tally fs
unfolding tally
tally-Permᴰ Permᴰ.nil = refl
tally-Permᴰ (Permᴰ.cons e p) = ap₂ (λ x n. flag x + n) e (tally-Permᴰ p)
tally-Permᴰ (Permᴰ.swap d e) = omega (arith, ap flag d, ap flag e)
tally-Permᴰ (Permᴰ.trans p q) = tally-Permᴰ p ∙ tally-Permᴰ q

tally-Perm : {es fs : List UserEntry} → Perm es fs → tally es ≡ tally fs
tally-Perm p = ∥∥₁_elim p (ℕ_set _ _) tally-Permᴰ

total-first : (n : ℕ) (f : ℕ → ℕ) → total (suc n) f ≡ f 0 + total n (λ i. f (suc i))
unfolding total
total-first zero f = omega arith
total-first (suc n) f = omega (arith, total-first n f)

total-tally :
    (n : ℕ) (entries : ℕ → UserEntry)
    → total n (λ i. flag (entries i)) ≡ tally (first_entries n entries)
unfolding tally total
total-tally zero entries = refl
total-tally (suc n) entries =
    total-first n (λ i. flag (entries i))
    ∙ ap (λ m. flag (entries 0) + m) (total-tally n (λ i. entries (suc i)))

-- the number of the taken entries, when those from `n` on are free
count_taken-tally :
    (n : ℕ) (entries : ℕ → UserEntry)
    → n ≤ 256
    → ((i : ℕ) → n ≤ i → (entries i).is_taken ≡ false)
    → count_taken entries ≡ tally (first_entries n entries)
unfolding flag
count_taken-tally n entries within free =
    total-stop 256 n (λ i. flag (entries i)) within (λ i le. rw (free i le) refl)
    ∙ total-tally n entries

-- With a `qsort` that keeps its promise, `sort_entry_array` on consistent data leaves it consistent.
-- Afterwards no entry is older than a later one, they are the same entries, and those from
-- `entry_array_size` on are where they were.
pub sort_entry_array-NotOlder :
    (qsort : Qsort) (s : Observers)
    → IsQsort qsort
    → IsConsistent s
    → IsConsistent (sort_entry_array qsort s)
      × ((i j : ℕ)
          → i < j
          → j < s.entry_array_size
          → NotOlder
              ((sort_entry_array qsort s).entry_array i)
              ((sort_entry_array qsort s).entry_array j))
      × Perm
          (first_entries s.entry_array_size (sort_entry_array qsort s).entry_array)
          (first_entries s.entry_array_size s.entry_array)
      × ((i : ℕ)
          → s.entry_array_size ≤ i
          → (sort_entry_array qsort s).entry_array i ≡ s.entry_array i)
unfolding sort_entry_array
sort_entry_array-NotOlder qsort s q h =
    let n = s.entry_array_size in
    let sorted = qsort sort_entry_array_comp n s.entry_array in
    let same = q.rearranged sort_entry_array_comp n s.entry_array sort_entry_array_comp-IsOrder in
    let rest : (i : ℕ) → n ≤ i → sorted i ≡ s.entry_array i =
      q.untouched sort_entry_array_comp n s.entry_array in
    let free : (i : ℕ) → n ≤ i → (sorted i).is_taken ≡ false =
      λ i le. ap (λ e. e.is_taken) (rest i le) ∙ h.free_above i le in
    (
      record {
        within = h.within;
        free_above = free;
        counted =
            h.counted
            ∙ (count_taken-tally n s.entry_array h.within h.free_above
                ∙ (sym (tally-Perm same) ∙ sym (count_taken-tally n sorted h.within free)));
      },
      λ i j before inside. sort_entry_array_comp-NotOlder (sorted i) (sorted j) (
          q.sorted sort_entry_array_comp n s.entry_array i j sort_entry_array_comp-IsOrder before
            inside),
      same,
      rest,
    )
