-- ===== src/Valws/Hashtable/Insert.antt =====
-- `hashtable_put_key_value` and `put`: they return, keep the table well formed, and write one key.
use native.Mathlib.Decide.{ℕ_discrete}
use c380_1code.Base.{
  ℕ, zero, suc, ◌+◌, ◌*◌, ◌%◌, ◌<◌, ◌≡◌, refl, Option, some, arith, ◌==◌, if◌then◌else◌, length,
  le-total, update, ull_mod, inc, ◌>>=◌,
}
use c380_1code.Valws.Common.{KeyValue}
use c380_1code.Valws.LinkedList.{LinkedList}
use c380_1code.Valws.LinkedList.Contents as Chain
use c380_1code.Valws.LinkedList.Contents.{
  value_of, occ, present, present-le, IsProper, Writes-IsProper,
}
use c380_1code.Valws.Hashtable.{Table, null, table, bucket_index, count_of, count_up, split}
use c380_1code.Valws.Hashtable.Contents.{
  value_in, size_in, IsList, IsTable, no_pairs, Writes, Writes-list, Writes-Same, Same,
  IsTable-IsBucket, size_in-table, Replaces-update, Replaces-table, replace-Writes,
  replace-IsBucket, Writes-table, count_of-size, nodes-bucket,
}
use c380_1code.Valws.Hashtable.Split.{Inserts, split-Same}
use c380_1code.Valws.Hashtable.Place.{span, residue-lt}

pub data IsCase (t : Table) : Type 0 where
  is_null : t ≡ null → IsCase t
  is_table :
      (count at shifts : ℕ) (tables : ℕ → Table) (lists : ℕ → LinkedList)
      → t ≡ table count at shifts tables lists
      → IsCase t

pub Table-cases : (t : Table) → IsCase t
Table-cases null = is_null refl
Table-cases (table count at shifts tables lists) = is_table count at shifts tables lists refl

-- the outcome of a run that writes `x` to the key `k` of a table
abbrev pub Wrote : ℕ → ℕ → ℕ → ℕ → Table → Option Table → Type 0
Wrote level residue k x t r =
    (t' : Table) × (r ≡ some t') × IsTable level residue t' × Writes k x t no_pairs t' no_pairs

-- a list after a write is well formed in the same bucket
pub Writes-IsList :
    {k x level residue : ℕ} {l l' : LinkedList}
    → Chain.Writes k x l l'
    → x < ull_mod
    → k < ull_mod
    → k % span level ≡ residue
    → IsList level residue l
    → (level ≡ 16 → l'.count ≡ length l'.nodes)
    → IsList level residue l'
Writes-IsList w lt small home h honest = record {
  proper = Writes-IsProper w lt h.proper;
  placed = λ j p. elim (ℕ_discrete j _) [
    | yes e ↦ (rw e small, rw e home)
    | no ne ↦ h.placed j (ground (arith, w.occurs j))
  ];
  honest = honest;
}

pub size_in-list : (t : Table) (l : LinkedList) → t ≡ null → size_in t l ≡ length l.nodes
unfolding size_in
size_in-list t l empty = rw empty

-- a write to the list of a bucket, followed by what keeps its contents
pub Writes-bucket :
    {k x : ℕ} {t inner : Table} {l l' l'' : LinkedList}
    → t ≡ null
    → Chain.Writes k x l l'
    → Same null l' inner l''
    → Writes k x t l inner l''
Writes-bucket empty w same = rw empty (Writes-Same (Writes-list w) same)

-- the new count of a table over a list to which a pair may have been added
count_up-list :
    (count old new before after value x : ℕ)
    → count + 1 < ull_mod
    → 0 < x
    → after + present value ≡ before + present x
    → new ≡ (if value == 0 then inc old else old)
    → count_up count old new + before ≡ count + after
count_up-list count old new before after zero (suc x) room pos sized counted = ground arith
count_up-list count old new before after (suc value) (suc x) room pos sized counted = ground arith
count_up-list count old new before after value zero room pos sized counted = absurd (omega arith)

count_up-table :
    (count old new value x : ℕ)
    → count + 1 < ull_mod
    → 0 < x
    → new + present value ≡ old + present x
    → count_up count old new + old ≡ count + new
count_up-table count old new zero (suc x) room pos sized = ground arith
count_up-table count old new (suc value) (suc x) room pos sized = ground arith
count_up-table count old new value zero room pos sized = absurd (omega arith)

module _ {level residue count at shifts : ℕ} (tables : ℕ → Table) (lists : ℕ → LinkedList)
    (valid : IsTable level residue (table count at shifts tables lists))
    (room : count + 1 < ull_mod) (k x i : ℕ) (pos : 0 < x) (home : bucket_index k shifts ≡ i)
    (small : i < 16) where
  list_count :
      {inner : Table} {l' : LinkedList} (l : LinkedList)
      → tables i ≡ null
      → Chain.Writes k x (lists i) l
      → l.count ≡ (if value_of k (lists i).nodes == 0 then inc (lists i).count else (lists i).count)
      → Same null l inner l'
      → count_up count (lists i).count l.count + size_in (tables i) (lists i)
        ≡ count + size_in inner l'
  list_count l empty w counted same = omega (
    arith,
    count_up-list count (lists i).count l.count (length (lists i).nodes) (length l.nodes)
        (value_of k (lists i).nodes) x room pos w.sized counted,
    size_in-list (tables i) (lists i) empty,
    same.sized,
    size_in-list null l refl,
  )

  list_room :
      (l : LinkedList) → tables i ≡ null → Chain.Writes k x (lists i) l → length l.nodes < ull_mod
  list_room l empty w = omega (
    arith,
    w.sized,
    present-le x,
    size_in-list (tables i) (lists i) empty,
    le-total 16 i (λ j. size_in (tables j) (lists j)) small,
    valid.1.counted,
  )

  -- the end of an insertion into a bucket with a list, which has become `l`
  pub list_step :
      {insert : Table → KeyValue → Option Table}
      → (suc level < 16 → Inserts (suc level) (residue + span level * i) insert)
      → tables i ≡ null
      → (l : LinkedList) → Chain.Writes k x (lists i) l
      → IsList (suc level) (residue + span level * i) l
      → l.count ≡ (if value_of k (lists i).nodes == 0 then inc (lists i).count else (lists i).count)
      → Wrote level residue k x (table count at shifts tables lists) (do
        (inner, l') ← split insert at l
        some (
            table
              (count_up count (lists i).count l.count)
              at
              shifts
              (update tables i inner)
              (update lists i l')))
  list_step {insert} ins empty l w is_list counted =
      let header = valid.1 in
      let (inner, l', run, bucket, same) =
        split-Same l ins header.within (residue-lt level residue i header.residue_lt small) is_list
          (list_room l empty w) at header.at_level in
      let replaced = Replaces-update i tables lists inner l' in
      let count' = count_up count (lists i).count l.count in
      (
        table count' at shifts (update tables i inner) (update lists i l'),
        rw run,
        replace-IsBucket replaced no_pairs valid small bucket count'
            (list_count l empty w counted same),
        replace-Writes replaced home (Writes-bucket empty w same) no_pairs count count' at,
      )

  table_count :
      {inner : Table} (child : Table)
      → tables i ≡ child
      → IsTable (suc level) (residue + span level * i) child
      → IsTable (suc level) (residue + span level * i) inner
      → Writes k x child no_pairs inner no_pairs
      → count_up count (count_of child) (count_of inner) + size_in (tables i) (lists i)
        ≡ count + size_in inner (lists i)
  table_count {inner} child here old new w =
      let r = residue + span level * i in
      rw
        (
          here,
          size_in-table (suc level) r child (lists i) old,
          size_in-table (suc level) r inner (lists i) new,
          count_of-size (suc level) r child old,
          count_of-size (suc level) r inner new,
        )
        (count_up-table count _ _ (value_in child no_pairs k) x room pos w.sized)

  -- the end of an insertion into a bucket with a table
  pub table_step :
      {inner : Table}
      → (child : Table) → tables i ≡ child
      → IsTable (suc level) (residue + span level * i) child
      → IsTable (suc level) (residue + span level * i) inner
      → Writes k x child no_pairs inner no_pairs
      → Wrote level residue k x (table count at shifts tables lists) (
          some (
            table
              (count_up count (count_of child) (count_of inner))
              at
              shifts
              (update tables i inner)
              lists))
  table_step {inner} child here old new w =
      let r = residue + span level * i in
      let empty = nodes-bucket (suc level) r child (lists i) old (rw here at (valid.2 i small)) in
      let replaced = Replaces-table i tables lists inner in
      let count' = count_up count (count_of child) (count_of inner) in
      let grown = table_count child here old new w in
      let written : Writes k x (tables i) (lists i) inner (lists i) =
        rw here (Writes-table (suc level) r child inner (lists i) old new w) in
      (
        table count' at shifts (update tables i inner) lists,
        refl,
        replace-IsBucket replaced no_pairs valid small
            (IsTable-IsBucket (suc level) r inner (lists i) new empty) count' grown,
        replace-Writes replaced home written no_pairs count count' at,
      )
