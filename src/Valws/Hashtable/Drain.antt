-- ===== src/Valws/Hashtable/Drain.antt =====
-- The lists of an inner table, drained into one list, and when a table may be merged.
use c380_1code.Base.{
  ℕ, zero, suc, ◌+◌, ◌≤◌, ◌<◌, ◌≡◌, refl, ap, Option, some, List, [], ◌∷◌, arith, length, sum_from,
  dec,
}
use c380_1code.Valws.Common.{KeyValue, merge_size}
use c380_1code.Valws.LinkedList.{LinkedList, sll_put_key_value, sll_pop}
use c380_1code.Valws.LinkedList.Contents.{value_of, occ, IsProper-nil, value_of-eq-zero}
use c380_1code.Valws.Hashtable.{Table, null, table, drain, merge_lists}
use c380_1code.Valws.Hashtable.Contents.{IsList}

-- The pairs of `ns` have gone in front of the list `l`, which is now `l'`.
record Moved (ns : List KeyValue) (l l' : LinkedList) : Type 0 where
  reads : (j : ℕ) → value_of j l'.nodes ≡ value_of j ns + value_of j l.nodes
  occurs : (j : ℕ) → occ j l'.nodes ≡ occ j ns + occ j l.nodes
  sized : length l'.nodes ≡ length ns + length l.nodes

abbrev move_pair : LinkedList → KeyValue → Option LinkedList
move_pair s kv = some (sll_put_key_value s kv)

Moved-cons :
    {n : KeyValue} {ns : List KeyValue} {l l' : LinkedList}
    → ((j : ℕ) → occ j (n ∷ ns) + occ j l.nodes ≤ 1)
    → Moved ns (sll_put_key_value l n) l'
    → Moved (n ∷ ns) l l'
unfolding value_of occ sll_put_key_value
Moved-cons {n} {ns} {l} once m = record {
  reads = λ j. ground (arith, m.reads j, once j, value_of-eq-zero j ns, value_of-eq-zero j l.nodes);
  occurs = λ j. ground (arith, m.occurs j);
  sized = omega (arith, m.sized);
}

drain-Moved :
    (ns : List KeyValue) (rounds count : ℕ) (l : LinkedList)
    → length ns < rounds
    → ((j : ℕ) → occ j ns + occ j l.nodes ≤ 1)
    → (l' : LinkedList) × (rest : LinkedList) × (drain move_pair rounds
          (record { count = count; nodes = ns })
          l
        ≡ some (l', rest))
      × Moved ns l l'
unfolding drain sll_pop value_of occ sll_put_key_value
drain-Moved ns zero count l fuel once = absurd (omega arith)
drain-Moved [] (suc rounds) count l fuel once = (
  l,
  record { count = count; nodes = [] },
  refl,
  record { reads = λ j. omega arith; occurs = λ j. omega arith; sized = omega arith },
)
drain-Moved (n ∷ ns) (suc rounds) count l fuel once =
    let (l', rest, run, m) =
      drain-Moved ns rounds (dec (dec count)) (sll_put_key_value l n) (omega arith)
        (λ j. ground (arith, once j)) in
    (l', rest, run, Moved-cons once m)

-- The lists `i` to `i + n - 1` have gone into `l`, which is now `l'`.
pub record Gathered (n i : ℕ) (lists : ℕ → LinkedList) (l l' : LinkedList) : Type 0 where
  pub reads :
      (j : ℕ)
      → value_of j l'.nodes ≡ sum_from n i (λ m. value_of j (lists m).nodes) + value_of j l.nodes
  pub occurs : (j : ℕ) → occ j l'.nodes ≡ sum_from n i (λ m. occ j (lists m).nodes) + occ j l.nodes
  pub sized : length l'.nodes ≡ sum_from n i (λ m. length (lists m).nodes) + length l.nodes

pub merge_lists-Gathered :
    (n i : ℕ) (lists : ℕ → LinkedList) (l : LinkedList)
    → ((j : ℕ) → sum_from n i (λ m. occ j (lists m).nodes) + occ j l.nodes ≤ 1)
    → (l' : LinkedList) × (merge_lists n i lists l ≡ some l') × Gathered n i lists l l'
unfolding merge_lists sum_from
merge_lists-Gathered zero i lists l once =
    (l, refl, record { reads = λ j. omega arith; occurs = λ j. omega arith; sized = omega arith })
merge_lists-Gathered (suc n) i lists l once =
    let (l₁, rest, run, m) =
      drain-Moved (lists i).nodes (length (lists i).nodes + 1) (lists i).count l (omega arith)
        (λ j. omega (arith, once j)) in
    let (l', run', g) =
      merge_lists-Gathered n (i + 1) lists l₁ (λ j. omega (arith, once j, m.occurs j)) in
    (
      l',
      rw (run) run',
      record {
        reads = λ j. omega (arith, g.reads j, m.reads j);
        occurs = λ j. omega (arith, g.occurs j, m.occurs j);
        sized = omega (arith, g.sized, m.sized);
      },
    )

-- What `merge` leaves alone: at least six pairs.
abbrev pub IsBulky : Table → Type 0
IsBulky null = Unit
IsBulky (table count _ _ _ _) = merge_size ≤ count

-- Every table below this one is bulky.
abbrev pub IsThick : Table → Type 0
IsThick null = Unit
IsThick (table _ _ _ tables _) = (i : ℕ) → i < 16 → IsBulky (tables i) × IsThick (tables i)

-- Every table below an inner table of this one is bulky, so that a merge loses nothing.
abbrev pub IsMergeable : Table → Type 0
IsMergeable null = Unit
IsMergeable (table _ _ _ tables _) = (i : ℕ) → i < 16 → IsThick (tables i)

pub IsThick-IsMergeable : (t : Table) → IsThick t → IsMergeable t
IsThick-IsMergeable null h = tt
IsThick-IsMergeable (table count at shifts tables lists) h = λ i lt. (h i lt).1

pub empty-IsList :
    {level residue : ℕ} (l : LinkedList) → l.nodes ≡ [] → level < 16 → IsList level residue l
unfolding occ
empty-IsList l e within = record {
  proper = rw e IsProper-nil;
  placed = λ k h. absurd (omega (arith, ap (occ k) e));
  honest = λ last. absurd (omega arith);
}
