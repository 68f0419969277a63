-- ===== src/Valws/Hashtable/Sparse.antt =====
-- `put` and `delete` keep a table shallow as long as its keys are sparse.
use mathlib.Core.Path.{subst}
use native.Mathlib.Decide.{ℕ_discrete}
use c380_1code.Base.{
  ℕ, suc, ◌+◌, ◌*◌, ◌%◌, ◌<◌, ◌≡◌, refl, sym, ◌∙◌, true, inl, inr, Bool-cases, Option, some, arith,
  ltb, ◌==◌, if◌then◌else◌, length, ull_mod, update,
}
use c380_1code.Valws.Common.{KeyValue, split_size}
use c380_1code.Valws.LinkedList.{LinkedList, sll_add}
use c380_1code.Valws.LinkedList.Contents.{value_of, present-le}
use c380_1code.Valws.LinkedList.Operations.{sll_add-Writes, count-sll_add}
use c380_1code.Valws.Hashtable.{
  Table, null, table, bucket_index, count_up, split, put, count_of, hashtable_put_key_value, drain,
}
use c380_1code.Valws.Hashtable.Contents.{value_in, size_in, IsTable, no_pairs, value_in-table}
use c380_1code.Valws.Hashtable.Place.{span}
use c380_1code.Valws.Hashtable.Split.{
  split-Same, new_hashtable_at-new, new_table, new_table-IsTable, value_in-new, size_in-new,
}
use c380_1code.Valws.Hashtable.Insert.{Table-cases, is_null, is_table}
use c380_1code.Valws.Hashtable.Buckets.{
  value_in-list, value_in-step, grown-IsList, bucket_home, bucket-IsList, bucket_room, bucket_table,
  child_room, child_value,
}
use c380_1code.Valws.Hashtable.Put.{hashtable_put_key_value-Inserts, put-Puts}
use c380_1code.Valws.Hashtable.Shallow.{
  IsSparse, IsFlat, IsShallow, same_bucket, put-short, of_result, put-Flat,
}
use c380_1code.Valws.Hashtable.Flat.{drain-Flat, new_table-IsFlat}

split-long :
    (insert : Table → KeyValue → Option Table) (at : ℕ) (l : LinkedList)
    → ltb split_size l.count ≡ true
    → at ≡ 0
    → split insert at l ≡ drain insert (length l.nodes + 1) l (new_table 1)
unfolding split
split-long insert at l long root =
    let word : (at + 1) % ull_mod ≡ 1 = omega (arith, root) in
    rw (long, word, new_hashtable_at-new 1 (omega arith)) refl

put-long :
    (fuel count at shifts k : ℕ) (tables : ℕ → Table) (lists : ℕ → LinkedList) (inner : Table)
    (l' : LinkedList)
    → tables (bucket_index k shifts) ≡ null
    → split (hashtable_put_key_value fuel) at (sll_add (lists (bucket_index k shifts)) k)
      ≡ some (inner, l')
    → put (suc fuel) (table count at shifts tables lists) k
      ≡ some (
          table
            (count_up count
              (lists (bucket_index k shifts)).count
              (sll_add (lists (bucket_index k shifts)) k).count)
            at
            shifts
            (update tables (bucket_index k shifts) inner)
            (update lists (bucket_index k shifts) l'))
unfolding put
put-long fuel count at shifts k tables lists inner l' empty run = rw (empty, run, put) refl

put-inner :
    (fuel count at shifts k : ℕ) (tables : ℕ → Table) (lists : ℕ → LinkedList) (c v s : ℕ)
    (ts : ℕ → Table) (ls : ℕ → LinkedList) (inner : Table)
    → tables (bucket_index k shifts) ≡ table c v s ts ls
    → put fuel (table c v s ts ls) k ≡ some inner
    → put (suc fuel) (table count at shifts tables lists) k
      ≡ some (
          table
            (count_up count c (count_of inner))
            at
            shifts
            (update tables (bucket_index k shifts) inner)
            lists)
unfolding put
put-inner fuel count at shifts k tables lists c v s ts ls inner here run = rw (here, run, put) refl

-- a shallow table of which one bucket has changed
pub IsShallow-after :
    (count count' at shifts i : ℕ) (tables : ℕ → Table) (lists lists' : ℕ → LinkedList) (t : Table)
    → IsShallow (table count at shifts tables lists)
    → IsFlat t
    → IsShallow (table count' at shifts (update tables i t) lists')
IsShallow-after count count' at shifts i tables lists lists' t shallow flat j lt =
    elim (ℕ_discrete j i) [
      | yes e ↦ let same : update tables i t j ≡ t = ground (arith, e) in rw same flat
      | no ne ↦
          let same : update tables i t j ≡ tables j = ground (arith, ne) in rw same (shallow j lt)
    ]

module _ {count at shifts : ℕ} (tables : ℕ → Table) (lists : ℕ → LinkedList)
    (valid : IsTable 0 0 (table count at shifts tables lists))
    (shallow : IsShallow (table count at shifts tables lists)) (k : ℕ) (small : k < ull_mod) where
  -- a key of the bucket of `k`
  bucket_value :
      (j : ℕ)
      → j % span 1 ≡ 0 + span 0 * bucket_index k shifts
      → value_in (table count at shifts tables lists) no_pairs j
        ≡ value_in (tables (bucket_index k shifts)) (lists (bucket_index k shifts)) j
  bucket_value j home =
      let same =
        same_bucket j 0 0 (bucket_index k shifts) shifts valid.1.shifted (omega arith) home in
      value_in-step count at shifts tables lists no_pairs j ∙ rw same refl

  -- `put` in a bucket whose list becomes too long
  put-expand :
      (g : ℕ → ℕ) (t' : Table)
      → tables (bucket_index k shifts) ≡ null
      → value_of k (lists (bucket_index k shifts)).nodes + 1 < ull_mod
      → size_in (table count at shifts tables lists) no_pairs + 1 < ull_mod
      → IsSparse g
      → ((j : ℕ)
          → 0 < (
              if j == k
              then value_in (table count at shifts tables lists) no_pairs k + 1
              else value_in (table count at shifts tables lists) no_pairs j)
          → 0 < g j)
      → ltb split_size (sll_add (lists (bucket_index k shifts)) k).count ≡ true
      → put 16 (table count at shifts tables lists) k ≡ some t'
      → IsShallow t'
  put-expand g t' empty lt room sparse below big run =
      let i = bucket_index k shifts in
      let r = 0 + span 0 * i in
      let l = sll_add (lists i) k in
      let old = bucket-IsList tables lists valid k (omega arith) empty in
      let few = bucket_room tables lists valid k (omega arith) room empty in
      let w = sll_add-Writes (lists i) k old.proper lt in
      let home = bucket_home tables lists valid k (omega arith) in
      let is_list =
        grown-IsList (lists i) l w (omega arith) lt small home few
          (count-sll_add (lists i) k old.proper) old in
      let ins = hashtable_put_key_value-Inserts 15 1 r (omega arith) (omega arith) in
      let short : length l.nodes < ull_mod =
        omega (arith, w.sized, few, present-le (value_of k (lists i).nodes + 1)) in
      let (inner, l', split_run, bucket, same) =
        split-Same l (λ deeper. ins) (omega arith) (omega arith) is_list short at
          valid.1.at_level in
      let flat : IsFlat inner =
        drain-Flat 14 r g ins sparse l.nodes (length l.nodes + 1) l.count (new_table 1) inner l'
          (omega arith) is_list.proper is_list.placed (λ j h. value_in-new 1 j)
          (new_table-IsTable 1 r (omega arith) (omega arith)) (new_table-IsFlat 1)
          (omega (arith, short, size_in-new 1))
          (λ j e p. below j (
            ground (
              arith,
              p,
              w.reads j,
              bucket_value j e ∙ value_in-list (tables i) (lists i) j empty,
              bucket_value k home ∙ value_in-list (tables i) (lists i) k empty,
              value_in-new 1 j,
            )))
          (sym (split-long (hashtable_put_key_value 15) at l big valid.1.at_level) ∙ split_run) in
      of_result IsShallow (put-long 15 count at shifts k tables lists inner l' empty split_run) run
        (IsShallow-after count count at shifts i tables lists (update lists i l') inner shallow
          flat)

  -- `put` in a bucket with a table
  put-child :
      (g : ℕ → ℕ) (t' : Table) (c v s : ℕ) (ts : ℕ → Table) (ls : ℕ → LinkedList)
      → tables (bucket_index k shifts) ≡ table c v s ts ls
      → value_in (table count at shifts tables lists) no_pairs k + 1 < ull_mod
      → size_in (table count at shifts tables lists) no_pairs + 1 < ull_mod
      → IsSparse g
      → ((j : ℕ)
          → 0 < (
              if j == k
              then value_in (table count at shifts tables lists) no_pairs k + 1
              else value_in (table count at shifts tables lists) no_pairs j)
          → 0 < g j)
      → put 16 (table count at shifts tables lists) k ≡ some t'
      → IsShallow t'
  put-child g t' c v s ts ls here lt room sparse below run =
      let i = bucket_index k shifts in
      let r = 0 + span 0 * i in
      let child = table c v s ts ls in
      let home = bucket_home tables lists valid k (omega arith) in
      let old = bucket_table tables lists valid k (omega arith) child here (λ h. absurd (cc)) in
      let value = child_value tables lists valid k (omega arith) child here old in
      let room' = child_room tables lists valid k (omega arith) child here old room in
      let lt' : value_in child no_pairs k + 1 < ull_mod = rw value lt in
      let flat : IsFlat child = subst IsFlat here (shallow i (omega arith)) in
      let read : (j : ℕ)
          → j % span 1 ≡ r
          → value_in (table count at shifts tables lists) no_pairs j ≡ value_in child no_pairs j =
        λ j e. bucket_value j e ∙ rw here (value_in-table 1 r child (lists i) j old) in
      let (inner, inner_run, new, w) =
        put-Puts 15 1 r (omega arith) (omega arith) k small child old home lt' room' in
      of_result IsShallow
        (put-inner 15 count at shifts k tables lists c v s ts ls inner here inner_run) run
        (IsShallow-after count count at shifts i tables lists lists inner shallow (
          put-Flat 14 k r child inner g old flat home small lt' room'
            (sparse, λ j e p. below j (ground (arith, p, read j e, value))) inner_run))

-- `put` on a shallow table whose keys after it are among the sparse keys of `g`
pub put-Shallow :
    (g : ℕ → ℕ) (t t' : Table) (k : ℕ)
    → IsTable 0 0 t
    → IsShallow t
    → k < ull_mod
    → value_in t no_pairs k + 1 < ull_mod
    → size_in t no_pairs + 1 < ull_mod
    → IsSparse g
    → ((j : ℕ)
        → 0 < (if j == k then value_in t no_pairs k + 1 else value_in t no_pairs j)
        → 0 < g j)
    → put 16 t k ≡ some t'
    → IsShallow t'
put-Shallow g null t' k valid shallow small lt room sparse below run = absurd valid
put-Shallow g (table count at shifts tables lists) t' k valid shallow small lt room sparse below
      run =
    let i = bucket_index k shifts in
    elim (Table-cases (tables i)) [
      | is_table c v s ts ls here ↦
          put-child tables lists valid shallow k small g t' c v s ts ls here lt room sparse below
            run
      | is_null empty ↦
          let value =
            value_in-step count at shifts tables lists no_pairs k
            ∙ value_in-list (tables i) (lists i) k empty in
          elim (Bool-cases (ltb split_size (sll_add (lists i) k).count)) [
            | inl big ↦
                put-expand tables lists valid shallow k small g t' empty (rw value at lt) room
                  sparse below big run
            | inr short ↦
                of_result IsShallow (put-short 15 count at shifts k tables lists empty short) run (
                  IsShallow-after count count at shifts i tables lists
                    (update lists i (sll_add (lists i) k)) null shallow tt)
          ]
    ]
