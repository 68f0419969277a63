-- ===== src/Notapp/Tests/Sorting.antt =====
-- A sort of two entries, with a `qsort` that sorts by insertion.
use mathlib.Core.List.{
  Mem, Perm, Permᴰ, Pairwise, mem-cons_self, mem-cons_of_mem, forall_mem-cons, Pairwise-singleton,
}
use mathlib.Core.List.Perm
use mathlib.Core.Logic.{∥∥₁_elim}
use mathlib.Core.HLevel.{¬_prop}
use native.Mathlib.Nat.{ℕ_set}
use c380_1code.Base.{
  ap, ◌∙◌, sym, ℕ, zero, suc, ◌≤◌, ◌<◌, ◌≡◌, ◌≢◌, inl, inr, refl, true, false, Bool, Bool-cases,
  List, [], ◌∷◌, ◌==◌, if◌then◌else◌, length, arith, total,
}
use c380_1code.Notapp.ServerData.{
  UserEntry, Observers, Comparison, minus_one, one, equal, Qsort, sort_entry_array, send_entries,
}
use c380_1code.Notapp.Server.{reading}
use c380_1code.Notapp.Server.Race.{raced, raced_further, add_entry-races}
use c380_1code.Notapp.Tests.Sockets.{nobody}
use c380_1code.Notapp.ServerData.Slots.{IsConsistent}
use c380_1code.Notapp.ServerData.Order.{opposite}
use c380_1code.Notapp.ServerData.Sorting.{
  first_entries, IsOrder, IsQsort, NotOlder, sort_entry_array-NotOlder,
}

is_one : Comparison → Bool
is_one minus_one = false
is_one one = true
is_one equal = false

is_one-opposite : (c : Comparison) → is_one c ≡ true → opposite c ≢ one
unfolding is_one opposite
is_one-opposite minus_one h k = absurd (ground (arith, h))
is_one-opposite one h k = absurd (ground (arith, k))
is_one-opposite equal h k = absurd (ground (arith, h))

-- the element at an index, or another one behind the end
pick : List UserEntry → ℕ → UserEntry → UserEntry
pick [] i other = other
pick (e ∷ es) zero other = e
pick (e ∷ es) (suc i) other = pick es i other

module _ (comparison : UserEntry → UserEntry → Comparison) where
  insert : UserEntry → List UserEntry → List UserEntry
  insert e [] = e ∷ []
  insert e (f ∷ fs) =
      let rest = insert e fs in if is_one (comparison e f) then f ∷ rest else e ∷ f ∷ fs

  sort : List UserEntry → List UserEntry
  unfolding insert
  sort [] = []
  sort (e ∷ es) = insert e (sort es)

  insert-Perm : (e : UserEntry) (es : List UserEntry) → Perm (insert e es) (e ∷ es)
  unfolding insert
  insert-Perm e [] = Perm.rfl
  insert-Perm e (f ∷ fs) = elim (Bool-cases (is_one (comparison e f))) [
    | inl after ↦ rw after (Perm.trans (Perm.cons f (insert-Perm e fs)) (Perm.swap e f fs))
    | inr before ↦ rw before Perm.rfl
  ]

  sort-Perm : (es : List UserEntry) → Perm (sort es) es
  unfolding sort
  sort-Perm [] = Perm.rfl
  sort-Perm (e ∷ es) = Perm.trans (insert-Perm e (sort es)) (Perm.cons e (sort-Perm es))

  abbrev NotAfter : UserEntry → UserEntry → Type 0
  NotAfter e f = comparison e f ≢ one

  NotAfter-of_before : (e f : UserEntry) → is_one (comparison e f) ≡ false → NotAfter e f
  unfolding is_one
  NotAfter-of_before e f h k = absurd (ground (arith, h, k))

  module _ (order : IsOrder comparison) where
    NotAfter-of_after : (e f : UserEntry) → is_one (comparison e f) ≡ true → NotAfter f e
    NotAfter-of_after e f h k = is_one-opposite (comparison e f) h (sym (order.swap e f) ∙ k)

    NotAfter-cons :
        {e f : UserEntry} {fs : List UserEntry}
        → NotAfter e f
        → ((x : UserEntry) → Mem x fs → NotAfter e x)
        → (x : UserEntry) → Mem x (f ∷ fs)
        → NotAfter e x
    NotAfter-cons {e} h k =
        (forall_mem-cons {p = NotAfter e} (λ x. ¬_prop {A = comparison e x ≡ one})).1 (h, k)

    insert-Pairwise :
        (e : UserEntry) {es : List UserEntry}
        → Pairwise NotAfter es
        → Pairwise NotAfter (insert e es)
    unfolding insert
    insert-Pairwise e Pairwise.nil = Pairwise-singleton _ e
    insert-Pairwise e (Pairwise.cons {a = f} {l = fs} below s) =
        elim (Bool-cases (is_one (comparison e f))) [
          | inl after ↦ rw after (
              Pairwise.cons
                (λ x m.
                  NotAfter-cons (NotAfter-of_after e f after) below x
                    ((Perm.mem_iff (insert-Perm e fs)).0 m))
                (insert-Pairwise e s))
          | inr before ↦
              let first = NotAfter-of_before e f before in
              rw before (
                Pairwise.cons
                  (NotAfter-cons first (λ x m. order.transitive e f x first (below x m)))
                  (Pairwise.cons below s))
        ]

    sort-Pairwise : (es : List UserEntry) → Pairwise NotAfter (sort es)
    unfolding sort
    sort-Pairwise [] = Pairwise.nil
    sort-Pairwise (e ∷ es) = insert-Pairwise e (sort-Pairwise es)

pick-Mem :
    (es : List UserEntry) (i : ℕ) (other : UserEntry) → i < length es → Mem (pick es i other) es
unfolding pick
pick-Mem [] i other lt = absurd (omega (arith, lt))
pick-Mem (e ∷ es) zero other lt = mem-cons_self
pick-Mem (e ∷ es) (suc i) other lt = mem-cons_of_mem e (pick-Mem es i other (omega (arith, lt)))

pick-Pairwise :
    (R : UserEntry → UserEntry → Type 0) {es : List UserEntry} (i j : ℕ) (d d' : UserEntry)
    → Pairwise R es
    → i < j
    → j < length es
    → R (pick es i d) (pick es j d')
unfolding pick
pick-Pairwise R i j d d' Pairwise.nil before inside = absurd (omega (arith, inside))
pick-Pairwise R i zero d d' (Pairwise.cons below s) before inside = absurd (omega (arith, before))
pick-Pairwise R zero (suc j) d d' (Pairwise.cons {a = e} {l = es} below s) before inside =
    below (pick es j d') (pick-Mem es j d' (omega (arith, inside)))
pick-Pairwise R (suc i) (suc j) d d' (Pairwise.cons {a = e} {l = es} below s) before inside =
    pick-Pairwise R i j d d' s (omega (arith, before)) (omega (arith, inside))

pick-past :
    (es : List UserEntry) (i : ℕ) (other : UserEntry) → length es ≤ i → pick es i other ≡ other
unfolding pick
pick-past [] i other le = refl
pick-past (e ∷ es) zero other le = absurd (omega (arith, le))
pick-past (e ∷ es) (suc i) other le = pick-past es i other (omega (arith, le))

first_entries-pick :
    (n : ℕ) (es : List UserEntry) (entries : ℕ → UserEntry)
    → length es ≡ n
    → first_entries n (λ i. pick es i (entries i)) ≡ es
unfolding pick
first_entries-pick zero [] entries e = refl
first_entries-pick zero (x ∷ es) entries e = absurd (omega (arith, e))
first_entries-pick (suc n) [] entries e = absurd (omega (arith, e))
first_entries-pick (suc n) (x ∷ es) entries e =
    ap (λ r. x ∷ r) (first_entries-pick n es (λ i. entries (suc i)) (omega (arith, e)))

length-first_entries : (n : ℕ) (entries : ℕ → UserEntry) → length (first_entries n entries) ≡ n
length-first_entries zero entries = refl
length-first_entries (suc n) entries = ap suc (length-first_entries n (λ i. entries (suc i)))

length-Permᴰ : {es fs : List UserEntry} → Permᴰ es fs → length es ≡ length fs
length-Permᴰ Permᴰ.nil = refl
length-Permᴰ (Permᴰ.cons e p) = ap suc (length-Permᴰ p)
length-Permᴰ (Permᴰ.swap d e) = refl
length-Permᴰ (Permᴰ.trans p q) = length-Permᴰ p ∙ length-Permᴰ q

pub sorting : Qsort
unfolding pick sort
sorting comparison n entries i = pick (sort comparison (first_entries n entries)) i (entries i)

length-sorted :
    (comparison : UserEntry → UserEntry → Comparison) (n : ℕ) (entries : ℕ → UserEntry)
    → length (sort comparison (first_entries n entries)) ≡ n
length-sorted comparison n entries =
    ∥∥₁_elim (sort-Perm comparison (first_entries n entries)) (ℕ_set _ _) length-Permᴰ
    ∙ length-first_entries n entries

pub sorting-IsQsort : IsQsort sorting
unfolding sorting
sorting-IsQsort = record {
  sorted = λ comparison n entries i j order before inside.
      pick-Pairwise (NotAfter comparison) i j (entries i) (entries j)
        (sort-Pairwise comparison order (first_entries n entries)) before
        (omega (arith, inside, length-sorted comparison n entries));
  rearranged = λ comparison n entries order.
      let same =
        first_entries-pick n (sort comparison (first_entries n entries)) entries
          (length-sorted comparison n entries) in
      rw same (sort-Perm comparison (first_entries n entries));
  untouched = λ comparison n entries i le.
      pick-past (sort comparison (first_entries n entries)) i (entries i)
        (omega (arith, le, length-sorted comparison n entries));
}

abbrev early : UserEntry
early = record { is_taken = true; tv_sec = 3; tv_usec = 0; string = 97 ∷ [] }

abbrev late : UserEntry
late = record { is_taken = true; tv_sec = 3; tv_usec = 9; string = 98 ∷ [] }

abbrev free : UserEntry
free = record { is_taken = false; tv_sec = 0; tv_usec = 0; string = [] }

abbrev observers : Observers
observers = record {
  observer_count = 2;
  entry_array_size = 2;
  entry_array = λ i. if i == 0 then early else if i == 1 then late else free;
}

observers-IsConsistent : IsConsistent observers
unfolding total
observers-IsConsistent = record {
  within = omega arith;
  free_above = λ i le. ground arith;
  counted = refl;
}

sort_entry_array-NotOlder_example :
    IsConsistent (sort_entry_array sorting observers)
    × ((i j : ℕ)
        → i < j
        → j < 2
        → NotOlder
            ((sort_entry_array sorting observers).entry_array i)
            ((sort_entry_array sorting observers).entry_array j))
    × Perm (first_entries 2 (sort_entry_array sorting observers).entry_array) (early ∷ late ∷ [])
    × ((i : ℕ)
        → 2 ≤ i
        → (sort_entry_array sorting observers).entry_array i ≡ observers.entry_array i)
sort_entry_array-NotOlder_example =
    sort_entry_array-NotOlder sorting observers sorting-IsQsort observers-IsConsistent

add_entry-races_example :
    ((raced sorting true late).server_state ≡ reading)
    × ((raced sorting true late).writer_count ≡ 1)
    × ((send_entries (raced sorting true late).observers nobody).strings ≡ [] ∷ [])
    × ((raced_further sorting true late).server_state ≡ reading)
    × ((send_entries (raced_further sorting true late).observers nobody).strings ≡ late.string ∷ [])
add_entry-races_example = add_entry-races sorting true late nobody sorting-IsQsort
