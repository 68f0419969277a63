-- ===== src/Notapp/ServerData/Slots.antt =====
-- The slots of the observers.
use c380_1code.Base.{
  ℕ, zero, suc, ◌+◌, ◌≤◌, ◌<◌, ◌≡◌, ◌≢◌, ◌%◌, refl, ◌∙◌, ◌⊎◌, inl, inr, Bool-cases, Bool, true,
  false, Option, none, some, ◌==◌, leb, ltb, if◌then◌else◌, total, total-change, arith,
}
use c380_1code.Notapp.ServerData.{
  int_mod, client_max, Observers, UserEntry, mark, find_free, register_observer,
  unregister_observer,
}

abbrev pub taken : Observers → ℕ → Bool
taken s i = (s.entry_array i).is_taken

abbrev pub count_taken : (ℕ → UserEntry) → ℕ
count_taken entries = total 256 (λ i. if (entries i).is_taken then 1 else 0)

-- The array is not overfull, the entries from its size on are free, and the count is that of the
-- taken entries.
pub record IsConsistent (s : Observers) : Type 0 where
  pub within : s.entry_array_size ≤ client_max
  pub free_above : (i : ℕ) → s.entry_array_size ≤ i → taken s i ≡ false
  pub counted : s.observer_count ≡ count_taken s.entry_array

-- the result of the search: all are taken, or this is the first free one
find_free-cases :
    (rounds i : ℕ) (entries : ℕ → UserEntry)
    → ((find_free rounds i entries ≡ none)
        × ((j : ℕ) → i ≤ j → j < i + rounds → (entries j).is_taken ≡ true))
      ⊎ ((k : ℕ) × (find_free rounds i entries ≡ some k)
          × (i ≤ k)
          × (k < i + rounds)
          × ((entries k).is_taken ≡ false))
unfolding find_free
find_free-cases zero i entries = inl (refl, λ j lo hi. absurd (omega (arith, lo, hi)))
find_free-cases (suc rounds) i entries = elim (Bool-cases (entries i).is_taken) [
  | inr free ↦ inr (i, rw free refl, omega arith, omega arith, free)
  | inl e ↦ elim (find_free-cases rounds (i + 1) entries) [
    | inl (none_free, all) ↦ inl (
      rw (e, none_free) refl,
      λ j lo hi. elim (Bool-cases (j == i)) [
        | inl here ↦ let at : j ≡ i = ground arith in rw at e
        | inr there ↦ all j (ground arith) (omega (arith, hi))
      ],
    )
    | inr (k, found, lo, hi, free) ↦
        inr (k, rw (e, found) refl, omega (arith, lo), omega (arith, hi), free)
  ]
]

-- marking an entry changes the number of the taken ones
count_taken-mark :
    (entries : ℕ → UserEntry) (i : ℕ) (b : Bool)
    → i < 256
    → count_taken (mark entries i b) + (if (entries i).is_taken then 1 else 0)
      ≡ count_taken entries + (if b then 1 else 0)
unfolding mark
count_taken-mark entries i b h =
    let at : (i == i) ≡ true = ground arith in
    let change =
      total-change 256 i (λ j. if (mark entries i b j).is_taken then 1 else 0)
        (λ j. if (entries j).is_taken then 1 else 0) h
        (λ j l ne. let out : (j == i) ≡ false = ground arith in rw out refl) in
    rw at at change

-- the entry that is marked, and the others
taken-mark :
    (entries : ℕ → UserEntry) (i j : ℕ) (b : Bool)
    → (mark entries i b j).is_taken ≡ (if j == i then b else (entries j).is_taken)
unfolding mark
taken-mark entries i j b = elim (Bool-cases (j == i)) [ inl e ↦ rw e refl | inr e ↦ rw e refl ]

mark_ne : (entries : ℕ → UserEntry) (i j : ℕ) (b : Bool) → j ≢ i → mark entries i b j ≡ entries j
unfolding mark
mark_ne entries i j b ne = let out : (j == i) ≡ false = ground arith in rw out refl

count_taken-le :
    (n : ℕ) (entries : ℕ → UserEntry) → total n (λ i. if (entries i).is_taken then 1 else 0) ≤ n
unfolding total
count_taken-le zero entries = omega arith
count_taken-le (suc n) entries = ground (arith, count_taken-le n entries)

-- The outcome of `register_observer`: a free entry, now taken, and nothing else changed; or no entry
-- because all of them are taken.
pub data Registers (s : Observers) : Option ℕ × Observers → Type 0 where
  registered :
      (index : ℕ) (s' : Observers)
      → index < client_max
      → taken s index ≡ false
      → taken s' index ≡ true
      → ((j : ℕ) → j ≢ index → s'.entry_array j ≡ s.entry_array j)
      → s'.observer_count ≡ s.observer_count + 1
      → IsConsistent s'
      → Registers s (some index, s')
  full : ((i : ℕ) → i < client_max → taken s i ≡ true) → Registers s (none, s)

register-at :
    (s : Observers) (index size : ℕ)
    → IsConsistent s
    → index < client_max
    → taken s index ≡ false
    → s.entry_array_size ≤ size
    → index < size
    → size ≤ client_max
    → Registers s (
      some index,
      record {
        observer_count = (s.observer_count + 1) % int_mod;
        entry_array_size = size;
        entry_array = mark s.entry_array index true;
      },
    )
register-at s index size h small free grows below within =
    let change = count_taken-mark s.entry_array index true small in
    let bound = count_taken-le 256 (mark s.entry_array index true) in
    let sum : count_taken (mark s.entry_array index true) + 0 ≡ count_taken s.entry_array + 1 =
      rw free at change in
    let next : (s.observer_count + 1) % int_mod ≡ s.observer_count + 1 =
      omega (arith, sum, bound, h.counted) in
    registered index _ small free (taken-mark s.entry_array index index true ∙ ground arith)
      (λ j ne. mark_ne s.entry_array index j true ne) next
      (record {
        within = within;
        free_above = λ i le.
            taken-mark s.entry_array index i true
            ∙ ground (arith, h.free_above i (omega (arith, grows, le)));
        counted = next ∙ omega (arith, sum, h.counted);
      })

-- On consistent data `register_observer` takes a free entry and leaves consistent data with one
-- observer more, or it fails and changes nothing, and then all the entries are taken.
pub register_observer-Registers :
    (s : Observers) → IsConsistent s → Registers s (register_observer s)
unfolding register_observer
register_observer-Registers s h = elim (find_free-cases s.entry_array_size 0 s.entry_array) [
  | inr (k, found, lo, hi, free) ↦
      rw (found, register_observer)
        (register-at s k s.entry_array_size h (omega (arith, hi, h.within)) free (omega arith)
          (omega (arith, hi)) h.within)
  | inl (none_free, all) ↦ elim (Bool-cases (leb (s.entry_array_size + 1) client_max)) [
    | inl room ↦
        rw (none_free, room, register_observer)
          (register-at s s.entry_array_size (s.entry_array_size + 1) h (ground (arith, room))
            (h.free_above s.entry_array_size (omega arith)) (omega arith) (omega arith)
            (ground (arith, room)))
    | inr no_room ↦
        let size : s.entry_array_size ≡ 256 = ground (arith, h.within) in
        rw (none_free, no_room, register_observer)
          (full (λ i l. all i (omega arith) (omega (arith, l, size))))
  ]
]

pub taken-below :
    (s : Observers) (i : ℕ) → IsConsistent s → taken s i ≡ true → i < s.entry_array_size
taken-below s i h here = elim (Bool-cases (ltb i s.entry_array_size)) [
  | inl below ↦ ground arith
  | inr above ↦
      let free : taken s i ≡ false = h.free_above i (ground arith) in absurd (ground arith)
]

-- On consistent data `unregister_observer` of a taken entry leaves consistent data with one observer
-- less, in which that entry is free and all the others are as they were.
pub unregister_observer-frees :
    (s : Observers) (index : ℕ)
    → IsConsistent s
    → index < client_max
    → taken s index ≡ true
    → (taken (unregister_observer s (some index)) index ≡ false)
      × ((j : ℕ) → j ≢ index → (unregister_observer s (some index)).entry_array j ≡ s.entry_array j)
      × ((unregister_observer s (some index)).observer_count + 1 ≡ s.observer_count)
      × IsConsistent (unregister_observer s (some index))
unfolding unregister_observer
unregister_observer-frees s index h small here =
    let inside : leb client_max index ≡ false = ground (arith, small) in
    let change = count_taken-mark s.entry_array index false small in
    let bound = count_taken-le 256 s.entry_array in
    let sum : count_taken (mark s.entry_array index false) + 1 ≡ count_taken s.entry_array + 0 =
      rw here at change in
    let below : index < s.entry_array_size = taken-below s index h here in
    rw inside (
      taken-mark s.entry_array index index false ∙ ground arith,
      (λ j ne. mark_ne s.entry_array index j false ne),
      omega (arith, sum, bound, h.counted),
      record {
        within = ground (arith, h.within);
        free_above = λ i le.
            taken-mark s.entry_array index i false ∙ ground (arith, le, below, h.free_above i);
        counted = omega (arith, sum, bound, h.counted);
      },
    )
