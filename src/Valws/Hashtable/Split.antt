-- ===== src/Valws/Hashtable/Split.antt =====
-- A bucket that is expanded holds what its list held.
use native.Mathlib.Decide.{dec_lt}
use mathlib.Core.Path.{subst}
use c380_1code.Base.{
  ℕ, zero, suc, ◌+◌, ◌*◌, ◌%◌, ◌≤◌, ◌<◌, ◌≡◌, refl, inl, inr, true, Option, some, List, [], ◌∷◌,
  arith, ltb, length, total, Bool-cases, ull_mod, dec, ◌∙◌,
}
use c380_1code.Valws.Common.{KeyValue, get_power_of_two, split_size}
use c380_1code.Valws.LinkedList.{LinkedList, new_linked_list, sll_pop}
use c380_1code.Valws.LinkedList.Contents.{
  value_of, occ, present, IsProper, IsProper-nil, IsProper-head, IsProper-tail,
}
use c380_1code.Valws.Hashtable.{Table, null, table, new_hashtable_at, drain, split}
use c380_1code.Valws.Hashtable.Contents.{
  value_in, size_in, IsList, IsBucket, IsTable, no_pairs, Writes, Writes-grows, Same,
  IsTable-IsBucket, value_in-table, size_in-table,
}
use c380_1code.Valws.Hashtable.Place.{span, eq_of-residue}

unfoldable pub new_table : ℕ → Table
new_table level = table 0 level (4 * level) (λ _. null) (λ _. new_linked_list)

pub new_hashtable_at-new :
    (level : ℕ) → level < 16 → new_hashtable_at level ≡ some (new_table level)
unfolding new_hashtable_at new_table get_power_of_two
new_hashtable_at-new level h = let e : 4 * level % ull_mod ≡ 4 * level = omega arith in rw e

pub value_in-new : (level k : ℕ) → value_in (new_table level) no_pairs k ≡ 0
unfolding new_table value_in value_of new_linked_list
value_in-new level k = refl

pub size_in-new : (level : ℕ) → size_in (new_table level) no_pairs ≡ 0
unfolding new_table size_in total new_linked_list
size_in-new level = refl

pub new_linked_list-IsList : (level residue : ℕ) → IsList level residue new_linked_list
unfolding new_linked_list occ
new_linked_list-IsList level residue = record {
  proper = IsProper-nil;
  placed = λ k h. absurd (omega arith);
  honest = λ e. refl;
}

pub new_table-IsTable :
    (level residue : ℕ)
    → level < 16
    → residue < span level
    → IsTable level residue (new_table level)
unfolding new_table size_in total new_linked_list
new_table-IsTable level residue h lt = (
  refl,
  record { within = h; residue_lt = lt; at_level = refl; shifted = refl; counted = refl },
  λ i p. new_linked_list-IsList (suc level) _,
)

-- What an insertion of a pair with a new key does to a table at `level`.
abbrev pub Inserts : ℕ → ℕ → (Table → KeyValue → Option Table) → Type 0
Inserts level residue insert =
    (t : Table) (kv : KeyValue)
    → IsTable level residue t
    → kv.key < ull_mod
    → kv.key % span level ≡ residue
    → value_in t no_pairs kv.key ≡ 0
    → 0 < kv.value
    → kv.value < ull_mod
    → size_in t no_pairs + 1 < ull_mod
    → (t' : Table) × (insert t kv ≡ some t')
      × IsTable level residue t'
      × Writes kv.key kv.value t no_pairs t' no_pairs

-- the table `t'` holds the pairs of `ns` besides those of `t`
record Takes (level residue : ℕ) (ns : List KeyValue) (t t' : Table) (l' : LinkedList)
    : Type 0 where
  emptied : l'.nodes ≡ []
  valid : IsTable level residue t'
  reads : (j : ℕ) → value_in t' no_pairs j ≡ value_of j ns + value_in t no_pairs j
  sized : size_in t' no_pairs ≡ length ns + size_in t no_pairs

Takes-cons :
    {level residue : ℕ} {n : KeyValue} {ns : List KeyValue} {t t₁ t' : Table} {l' : LinkedList}
    → IsProper (n ∷ ns)
    → value_in t no_pairs n.key ≡ 0
    → Writes n.key n.value t no_pairs t₁ no_pairs
    → Takes level residue ns t₁ t' l'
    → Takes level residue (n ∷ ns) t t' l'
unfolding value_of
Takes-cons {n} {ns} proper new w takes =
    let (none_left, pos, small) = IsProper-head n ns proper in
    record {
      emptied = takes.emptied;
      valid = takes.valid;
      reads = λ j. ground (arith, takes.reads j, w.reads j);
      sized = omega (arith, takes.sized, Writes-grows w new pos);
    }

-- the later keys are not yet in the table
pub later_keys :
    {n : KeyValue} {ns : List KeyValue} {t t₁ : Table}
    → IsProper (n ∷ ns)
    → ((k : ℕ) → 0 < occ k (n ∷ ns) → value_in t no_pairs k ≡ 0)
    → Writes n.key n.value t no_pairs t₁ no_pairs
    → (k : ℕ) → 0 < occ k ns
    → value_in t₁ no_pairs k ≡ 0
unfolding occ value_of
later_keys {n} {ns} proper fresh w k h =
    let (none_left, pos, small) = IsProper-head n ns proper in
    ground (arith, w.reads k, fresh k, (IsProper-tail n ns proper).exact k)

module _ {level residue : ℕ} {insert : Table → KeyValue → Option Table}
    (insert_lem : Inserts level residue insert) where
  drain-Takes :
      (ns : List KeyValue) (rounds count : ℕ) (t : Table)
      → length ns < rounds
      → IsProper ns
      → ((k : ℕ) → 0 < occ k ns → (k < ull_mod) × (k % span level ≡ residue))
      → ((k : ℕ) → 0 < occ k ns → value_in t no_pairs k ≡ 0)
      → IsTable level residue t
      → length ns + size_in t no_pairs < ull_mod
      → (t' : Table) × (l' : LinkedList) × (drain insert rounds
            (record { count = count; nodes = ns })
            t
          ≡ some (t', l'))
        × Takes level residue ns t t' l'
  unfolding drain sll_pop value_of occ
  drain-Takes ns zero count t fuel proper placed fresh valid room = absurd (omega arith)
  drain-Takes [] (suc rounds) count t fuel proper placed fresh valid room = (
    t,
    record { count = count; nodes = [] },
    refl,
    record { emptied = refl; valid = valid; reads = λ j. omega arith; sized = omega arith },
  )
  drain-Takes (n ∷ ns) (suc rounds) count t fuel proper placed fresh valid room =
      let (none_left, pos, small) = IsProper-head n ns proper in
      let first : 0 < occ n.key (n ∷ ns) = ground arith in
      let new = fresh n.key first in
      let here = placed n.key first in
      let (t₁, run, valid₁, w) = insert_lem t n valid here.0 here.1 new pos small (omega arith) in
      let (t', l', rest, takes) =
        drain-Takes ns rounds (dec (dec count)) t₁ (omega arith) (IsProper-tail n ns proper)
          (λ k h. placed k (omega arith)) (later_keys proper fresh w) valid₁
          (omega (arith, Writes-grows w new pos)) in
      (t', l', rw (drain, run) rest, Takes-cons proper new w takes)

-- at most one key has a given path of 16 digits
length-deep : (residue : ℕ) (l : LinkedList) → IsList 16 residue l → length l.nodes ≤ 1
unfolding occ
length-deep residue l valid = go l.nodes valid.proper.exact valid.placed
  where
    go :
        (ns : List KeyValue)
        → ((k : ℕ) → occ k ns ≡ present (value_of k ns))
        → ((k : ℕ) → 0 < occ k ns → (k < ull_mod) × (k % span 16 ≡ residue))
        → length ns ≤ 1
    go [] exact placed = omega arith
    go (n ∷ []) exact placed = omega arith
    go (n ∷ m ∷ ns) exact placed =
        let a = placed n.key (ground arith) in
        let b = placed m.key (ground arith) in
        let e = eq_of-residue n.key m.key residue a.0 b.0 a.1 b.1 in
        absurd (ground (arith, exact n.key))

split-within :
    (level residue : ℕ) (l : LinkedList)
    → level < 16
    → IsList (suc level) residue l
    → ltb split_size l.count ≡ true
    → suc level < 16
split-within level residue l within valid big = elim (dec_lt (suc level) 16) [
  | yes h ↦ h
  | no h ↦
      let last : suc level ≡ 16 = omega arith in
      let few = length-deep residue l (subst (λ n. IsList n residue l) last valid) in
      absurd (ground (arith, valid.honest last))
]

Takes-Same :
    {level residue : ℕ} {l l' : LinkedList} {t' : Table}
    → Takes level residue l.nodes (new_table level) t' l'
    → Same null l t' l'
unfolding value_in size_in
Takes-Same {level} {residue} {l} {l'} {t'} takes = record {
  reads = λ j.
      value_in-table level residue t' l' j takes.valid
      ∙ (takes.reads j ∙ omega (arith, value_in-new level j));
  sized =
      omega (arith, size_in-table level residue t' l' takes.valid, takes.sized, size_in-new level);
}

-- `split` on a well-formed list of a bucket: the new bucket is well formed and holds the same
pub split-Same :
    {level residue : ℕ} {insert : Table → KeyValue → Option Table} (l : LinkedList)
    → (suc level < 16 → Inserts (suc level) residue insert)
    → level < 16
    → residue < span (suc level)
    → IsList (suc level) residue l
    → length l.nodes < ull_mod
    → (at : ℕ) → at ≡ level
    → (t' : Table) × (l' : LinkedList) × (split insert at l ≡ some (t', l'))
      × IsBucket (suc level) residue t' l'
      × Same null l t' l'
unfolding split
split-Same {level} {residue} l insert_lem within lt valid room at here =
    elim (Bool-cases (ltb split_size l.count)) [
      | inr small ↦ (null, l, rw small, valid, record { reads = λ j. refl; sized = refl })
      | inl big ↦
          let deeper = split-within level residue l within valid big in
          let word : (at + 1) % ull_mod ≡ suc level = omega arith in
          let (t', l', run, takes) =
            drain-Takes (insert_lem deeper) l.nodes (length l.nodes + 1) l.count
              (new_table (suc level)) (omega arith) valid.proper valid.placed
              (λ k h. value_in-new (suc level) k) (new_table-IsTable (suc level) residue deeper lt)
              (omega (arith, size_in-new (suc level))) in
          (
            t',
            l',
            rw (big, word, new_hashtable_at-new (suc level) deeper) run,
            IsTable-IsBucket (suc level) residue t' l' takes.valid takes.emptied,
            Takes-Same takes,
          )
    ]
