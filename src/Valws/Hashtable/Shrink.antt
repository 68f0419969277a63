-- ===== src/Valws/Hashtable/Shrink.antt =====
-- `delete` keeps a table shallow.
use mathlib.Core.Path.{subst}
use native.Mathlib.Decide.{ℕ_discrete}
use c380_1code.Base.{
  ℕ, suc, ◌+◌, ◌*◌, ◌%◌, ◌<◌, ◌≡◌, refl, sym, ap, ◌∙◌, true, false, inl, inr, Bool-cases, Option,
  none, some, arith, ltb, length, le-total, ull_mod, update, ◌>>=◌,
}
use c380_1code.Valws.Common.{merge_size}
use c380_1code.Valws.LinkedList.{LinkedList, sll_remove}
use c380_1code.Valws.LinkedList.Contents.{value_of}
use c380_1code.Valws.LinkedList.Operations.{sll_remove-Writes, count-sll_remove}
use c380_1code.Valws.Hashtable.{
  Table, null, table, bucket_index, count_down, count_of, delete, merge, merge_lists,
}
use c380_1code.Valws.Hashtable.Contents.{
  size_in, IsBucket, IsTable, no_pairs, size_in-table, nodes-bucket,
}
use c380_1code.Valws.Hashtable.Place.{span}
use c380_1code.Valws.Hashtable.Insert.{Table-cases, is_null, is_table, size_in-list}
use c380_1code.Valws.Hashtable.Buckets.{bucket_home, bucket-IsList, bucket_table}
use c380_1code.Valws.Hashtable.Drain.{IsThick-IsMergeable}
use c380_1code.Valws.Hashtable.Merge.{merge-Same}
use c380_1code.Valws.Hashtable.Delete.{shrunk-count, delete-Deletes}
use c380_1code.Valws.Hashtable.Shallow.{IsFlat, IsShallow, IsFlat-IsThick, of_result}
use c380_1code.Valws.Hashtable.Sparse.{IsShallow-after}

delete-listed :
    (fuel count at shifts k : ℕ) (tables : ℕ → Table) (lists : ℕ → LinkedList)
    → tables (bucket_index k shifts) ≡ null
    → delete (suc fuel) (table count at shifts tables lists) k
      ≡ some (
          table
            (count_down count
              (lists (bucket_index k shifts)).count
              (sll_remove (lists (bucket_index k shifts)) k).count)
            at
            shifts
            tables
            (update lists (bucket_index k shifts) (sll_remove (lists (bucket_index k shifts)) k)))
unfolding delete
delete-listed fuel count at shifts k tables lists empty = rw (empty, delete) refl

delete-inner :
    (fuel count at shifts k : ℕ) (tables : ℕ → Table) (lists : ℕ → LinkedList) (c v s : ℕ)
    (ts : ℕ → Table) (ls : ℕ → LinkedList) (inner t : Table) (l : LinkedList)
    → tables (bucket_index k shifts) ≡ table c v s ts ls
    → delete fuel (table c v s ts ls) k ≡ some inner
    → merge inner (lists (bucket_index k shifts)) ≡ some (t, l)
    → delete (suc fuel) (table count at shifts tables lists) k
      ≡ some (
          table
            (count_down count c (count_of inner))
            at
            shifts
            (update tables (bucket_index k shifts) t)
            (update lists (bucket_index k shifts) l))
unfolding delete
delete-inner fuel count at shifts k tables lists c v s ts ls inner t l here run merged =
    rw (here, run, merged, delete) refl

-- the bucket whose table has been merged into its list
abbrev forget : LinkedList → Option (Table × LinkedList)
forget l = some (null, l)

-- the table that `merge` returns is null or the one that it got
gathered :
    (o : Option LinkedList) (t : Table) (l : LinkedList) → (o >>= forget) ≡ some (t, l) → IsFlat t
gathered none t l e = absurd (ground (arith, e))
gathered (some l') t l e = of_result (λ (p : Table × LinkedList). IsFlat p.0) refl e tt

merge-small :
    (count at shifts : ℕ) (tables : ℕ → Table) (lists : ℕ → LinkedList) (l : LinkedList)
    → ltb count merge_size ≡ true
    → merge (table count at shifts tables lists) l ≡ (merge_lists 16 0 lists l >>= forget)
unfolding merge
merge-small count at shifts tables lists l small = rw (small, merge) refl

merge-large :
    (count at shifts : ℕ) (tables : ℕ → Table) (lists : ℕ → LinkedList) (l : LinkedList)
    → ltb count merge_size ≡ false
    → merge (table count at shifts tables lists) l ≡ some (table count at shifts tables lists, l)
unfolding merge
merge-large count at shifts tables lists l large = rw (large, merge) refl

merge-Flat :
    (inner t : Table) (l l' : LinkedList) → IsFlat inner → merge inner l ≡ some (t, l') → IsFlat t
merge-Flat null t l l' flat run = unfold merge in absurd (ground (arith, run))
merge-Flat (table count at shifts tables lists) t l l' flat run =
    elim (Bool-cases (ltb count merge_size)) [
      | inl small ↦
          gathered (merge_lists 16 0 lists l) t l'
            (sym (merge-small count at shifts tables lists l small) ∙ run)
      | inr large ↦
          of_result (λ (p : Table × LinkedList). IsFlat p.0)
            (merge-large count at shifts tables lists l large) run flat
    ]

delete-Flat :
    (fuel k r : ℕ) (t t' : Table)
    → IsTable 1 r t
    → IsFlat t
    → k % span 1 ≡ r
    → size_in t no_pairs < ull_mod
    → delete (suc fuel) t k ≡ some t'
    → IsFlat t'
unfolding size_in
delete-Flat fuel k r null t' valid flat home room run = absurd valid
delete-Flat fuel k r (table count at shifts tables lists) t' valid flat home room run =
    let i = bucket_index k shifts in
    let (empty, honest) = flat i (omega arith) in
    let old = bucket-IsList tables lists valid k home empty in
    let few : length (lists i).nodes < ull_mod = omega (
      arith,
      room,
      le-total 16 i (λ j. size_in (tables j) (lists j)) (omega arith),
      size_in-list (tables i) (lists i) empty,
    ) in
    let honest' : (sll_remove (lists i) k).count ≡ length (sll_remove (lists i) k).nodes =
      shrunk-count (lists i).count (sll_remove (lists i) k).count _ _ (value_of k (lists i).nodes)
        few (sll_remove-Writes (lists i) k old.proper).sized
        (count-sll_remove (lists i) k old.proper) honest in
    of_result IsFlat (delete-listed fuel count at shifts k tables lists empty) run (λ j lt.
      elim (ℕ_discrete j i) [
        | yes e ↦
            let same : update lists i (sll_remove (lists i) k) j ≡ sll_remove (lists i) k =
              ground (arith, e) in
            (rw e empty, rw same honest')
        | no ne ↦
            let same : update lists i (sll_remove (lists i) k) j ≡ lists j = ground (arith, ne) in
            ((flat j lt).0, rw same (flat j lt).1)
      ])

-- `delete` on a shallow table
pub delete-Shallow :
    (t t' : Table) (k : ℕ)
    → IsTable 0 0 t
    → IsShallow t
    → k < ull_mod
    → size_in t no_pairs < ull_mod
    → delete 16 t k ≡ some t'
    → IsShallow t'
unfolding size_in
delete-Shallow null t' k valid shallow small room run = absurd valid
delete-Shallow (table count at shifts tables lists) t' k valid shallow small room run =
    let i = bucket_index k shifts in
    elim (Table-cases (tables i)) [
      | is_null empty ↦
          of_result IsShallow (delete-listed 15 count at shifts k tables lists empty) run shallow
      | is_table c v s ts ls here ↦
          let r = 0 + span 0 * i in
          let child = table c v s ts ls in
          let home = bucket_home tables lists valid k (omega arith) in
          let old = bucket_table tables lists valid k (omega arith) child here (λ h. absurd (cc)) in
          let flat : IsFlat child = subst IsFlat here (shallow i (omega arith)) in
          let few : size_in child no_pairs < ull_mod = omega (
            arith,
            room,
            le-total 16 i (λ j. size_in (tables j) (lists j)) (omega arith),
            ap (λ (t : Table). size_in t (lists i)) here,
            size_in-table 1 r child (lists i) old,
          ) in
          let (inner, inner_run, new, w, _, keeps) =
            delete-Deletes 15 1 r (omega arith) (omega arith) k small child old home few
              (IsThick-IsMergeable child (IsFlat-IsThick child flat)) in
          let empty =
            nodes-bucket 1 r child (lists i) old
              (subst (λ t. IsBucket 1 r t (lists i)) here (valid.2 i (omega arith))) in
          let (t₁, l₁, merged, _, _, _, _) =
            merge-Same 1 r inner (lists i) new (keeps (IsFlat-IsThick child flat)) empty in
          of_result IsShallow
            (delete-inner 15 count at shifts k tables lists c v s ts ls inner t₁ l₁ here inner_run
              merged)
            run
            (IsShallow-after count count at shifts i tables lists (update lists i l₁) t₁ shallow (
              merge-Flat inner t₁ (lists i) l₁
                (delete-Flat 14 k r child inner old flat home few inner_run) merged))
    ]
