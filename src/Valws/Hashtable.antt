-- ===== src/Valws/Hashtable.antt =====
-- Assignment03/hashtable.h and hashtable.c. A value of `Table` is a `struct hashtable *`: `null`, or
-- the table behind the pointer. Every table is owned by one bucket, so no table is shared. The
-- array `bucket` is two functions of the index, `bucket[i].table` and `bucket[i].linked_list`.
-- Calls that go down a level take fuel; `none` means that it ran out, or that the code would
-- dereference NULL.
pub mod Place
pub mod Contents
pub mod Split
pub mod Insert
pub mod Buckets
pub mod Put
pub mod Drain
pub mod Merge
pub mod Delete
pub mod Shallow
pub mod Flat
pub mod Sparse
pub mod Shrink
pub mod Root
use c380_1code.Base.{
  ℕ, zero, suc, ◌+◌, ◌*◌, ◌/◌, ◌%◌, ◌^◌, Option, none, some, ◌==◌, ltb, if◌then◌else◌, length,
  update, ull_mod, inc, dec, ◌>>=◌,
}
use c380_1code.Valws.Common.{KeyValue, table_size, split_size, merge_size, get_power_of_two}
use c380_1code.Valws.LinkedList.{
  LinkedList, new_linked_list, sll_add, sll_put_key_value, sll_remove, sll_pop,
}

pub data Table : Type 0 where
  null : Table
  table : (count level shifts : ℕ) (bucket_table : ℕ → Table) (linked_list : ℕ → LinkedList) → Table

-- `_new_hashtable`
unfoldable pub new_hashtable_at : ℕ → Option Table
new_hashtable_at level = do
  exponent ← get_power_of_two table_size
  some (table 0 level (exponent * level % ull_mod) (λ _. null) (λ _. new_linked_list))

unfoldable pub new_hashtable : Option Table
unfolding new_hashtable_at
new_hashtable = new_hashtable_at 0

-- `(key >> shifts) & HASH_MASK`; the mask keeps the low four bits
abbrev pub bucket_index : ℕ → ℕ → ℕ
bucket_index key shifts = key / 2 ^ shifts % table_size

-- `hashtable->count`; NULL has none
abbrev pub count_of : Table → ℕ
count_of null = 0
count_of (table count _ _ _ _) = count

-- `while (sll_pop(list, &key_value)) { … }`, with the rounds as fuel
pub drain {ℓ} :
    {S : Type ℓ} (body : S → KeyValue → Option S) (rounds : ℕ)
    → LinkedList
    → S
    → Option (S × LinkedList)
drain body zero l s = none
drain body (suc rounds) l s = elim (sll_pop l) [
  | none ↦ some (s, l)
  | some (kv, l') ↦ elim (body s kv) [ none ↦ none | some s' ↦ drain body rounds l' s' ]
]

-- The end of an insertion into a bucket that was not expanded: above the limit, a table of the
-- next level takes the pairs of the list. The result is the bucket.
unfoldable pub split :
    (Table → KeyValue → Option Table) → (level : ℕ) → LinkedList → Option (Table × LinkedList)
unfolding drain
split insert level l =
    if ltb split_size l.count
    then (do
      inner ← new_hashtable_at ((level + 1) % ull_mod)
      drain insert (length l.nodes + 1) l inner)
    else some (null, l)

-- `hashtable->count++` if the bucket's count has changed
abbrev pub count_up : (count old new : ℕ) → ℕ
count_up count old new = if old == new then count else inc count

abbrev pub count_down : (count old new : ℕ) → ℕ
count_down count old new = if old == new then count else dec count

unfoldable pub hashtable_put_key_value : ℕ → Table → KeyValue → Option Table
hashtable_put_key_value zero t kv = none
hashtable_put_key_value (suc fuel) null kv = none
hashtable_put_key_value (suc fuel) (table count level shifts tables lists) kv =
    let i = bucket_index kv.key shifts in
    elim (tables i) [
      | null ↦ (do
        let l = sll_put_key_value (lists i) kv
        (inner, l') ← split (hashtable_put_key_value fuel) level l
        some (
            table (count_up count (lists i).count l.count) level shifts (update tables i inner)
              (update lists i l')))
      | table c v s ts ls ↦ (do
        inner ← hashtable_put_key_value fuel (table c v s ts ls) kv
        some (table (count_up count c (count_of inner)) level shifts (update tables i inner) lists))
    ]

unfoldable pub put : ℕ → Table → ℕ → Option Table
put zero t address = none
put (suc fuel) null address = none
put (suc fuel) (table count level shifts tables lists) address =
    let i = bucket_index address shifts in
    elim (tables i) [
      | null ↦ (do
        let l = sll_add (lists i) address
        (inner, l') ← split (hashtable_put_key_value fuel) level l
        some (
            table (count_up count (lists i).count l.count) level shifts (update tables i inner)
              (update lists i l')))
      | table c v s ts ls ↦ (do
        inner ← put fuel (table c v s ts ls) address
        some (table (count_up count c (count_of inner)) level shifts (update tables i inner) lists))
    ]

-- `for (i = 0; i < TABLE_SIZE; ++i) while (sll_pop(…)) sll_put_key_value(…)`: the remaining
-- rounds, the index, the lists of the inner table, and the list of the bucket that takes the pairs
pub merge_lists : ℕ → ℕ → (ℕ → LinkedList) → LinkedList → Option LinkedList
merge_lists zero i lists l = some l
merge_lists (suc rounds) i lists l = do
  (l', _) ← drain (λ s kv. some (sll_put_key_value s kv)) (length (lists i).nodes + 1) (lists i) l
  merge_lists rounds (i + 1) lists l'

-- The end of a deletion in an expanded bucket: a small table goes back into the list. Only the
-- lists of the inner table are read; its own inner tables are destroyed with it.
unfoldable pub merge : Table → LinkedList → Option (Table × LinkedList)
unfolding merge_lists drain
merge null l = none
merge (table count level shifts tables lists) l =
    if ltb count merge_size
    then (do l' ← merge_lists table_size 0 lists l; some (null, l'))
    else some (table count level shifts tables lists, l)

unfoldable pub delete : ℕ → Table → ℕ → Option Table
delete zero t address = none
delete (suc fuel) null address = none
delete (suc fuel) (table count level shifts tables lists) address =
    let i = bucket_index address shifts in
    elim (tables i) [
      | null ↦
          (let l = sll_remove (lists i) address in
            some (
              table (count_down count (lists i).count l.count) level shifts tables
                (update lists i l)))
      | table c v s ts ls ↦ (do
        inner ← delete fuel (table c v s ts ls) address
        (inner', l) ← merge inner (lists i)
        some (
            table (count_down count c (count_of inner)) level shifts (update tables i inner')
              (update lists i l)))
    ]
