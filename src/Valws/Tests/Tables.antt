-- ===== src/Valws/Tests/Tables.antt =====
-- The hash table and its lists at concrete inputs.
use native.Mathlib.Nat.{zero-mod}
use c380_1code.Base.{
  ℕ, zero, suc, ◌+◌, ◌*◌, ◌%◌, ◌^◌, ◌≤◌, ◌<◌, ◌≡◌, ◌≢◌, refl, inl, inr, arith, Option, some, List,
  [], ◌∷◌, map, ◌==◌, length, total, update, Bool-cases, ull_mod, ◌>>=◌,
}
use c380_1code.Valws.Common.{KeyValue, get_power_of_two}
use c380_1code.Valws.Common.Power.{get_power_of_two-log}
use c380_1code.Valws.LinkedList.{LinkedList, new_linked_list, sll_pop, sll_add, sll_remove}
use c380_1code.Valws.LinkedList.Contents as Chain
use c380_1code.Valws.LinkedList.Contents.{value_of, occ, present, IsProper, IsProper-nil}
use c380_1code.Valws.LinkedList.Operations.{sll_add-Writes, sll_remove-Writes, sll_pop-miscounts}
use c380_1code.Valws.Hashtable.{
  Table, null, table, bucket_index, new_hashtable, split, put, delete, merge,
  hashtable_put_key_value, count_of,
}
use c380_1code.Valws.Hashtable.Contents.{value_in, size_in, IsTable, IsBucket, IsList, no_pairs}
use c380_1code.Valws.Hashtable.Place.{span, span-pos}
use c380_1code.Valws.Hashtable.Merge.{merge-loses}
use c380_1code.Valws.Hashtable.Drain.{IsMergeable}
use c380_1code.Valws.Hashtable.Root.{
  levels, IsRoot, references, Updates, put-Updates, delete-Updates,
}

runs : Unit {0}
unfolding new_hashtable put delete
runs = tt

puts : List ℕ → Table → Option Table
puts [] t = some t
puts (a ∷ rest) t = put levels t a >>= puts rest

deletes : List ℕ → Table → Option Table
deletes [] t = some t
deletes (a ∷ rest) t = delete levels t a >>= deletes rest

below : ℕ → List ℕ
below zero = []
below (suc n) = n ∷ below n

-- Sixteen addresses that share their low byte, and one more in the same first bucket. After the
-- split the deletions merge the inner bucket, whose list keeps a spoiled count, so that the next
-- `put` expands it again; the last deletion merges the level above and drops it.
loss : Option (ℕ × ℕ)
loss = do
  t ← new_hashtable
  t ← puts (16 ∷ map (λ i. i * 256) (below 16)) t
  t ← deletes (map (λ i. (i + 5) * 256) (below 11)) t
  t ← puts (0 ∷ []) t
  t ← deletes (16 ∷ []) t
  some (count_of t, references t 0)

-- five addresses are counted, and the address 0, put twice, is not found
loss_output : loss ≡ some (5, 0)
unfolding loss runs puts deletes below references value_in value_of get_power_of_two split sll_add
    new_linked_list sll_pop hashtable_put_key_value merge sll_remove
loss_output = refl

get_power_of_two-log_example :
    (e : ℕ) × (get_power_of_two 100 ≡ some e) × (2 ^ e ≤ 100) × (100 < 2 ^ suc e) × (e < 64)
get_power_of_two-log_example = get_power_of_two-log 100 (omega arith) (omega arith)

abbrev pair : KeyValue
pair = record { key = 3; value = 1 }

abbrev one : LinkedList
one = record { count = 1; nodes = pair ∷ [] }

one-IsProper : IsProper one.nodes
unfolding value_of occ
one-IsProper = record { exact = λ k. ground arith; small = λ k. ground arith }

sll_pop-miscounts_example :
    (l : LinkedList) × (sll_pop one ≡ some (pair, l))
    × (l.nodes ≡ [])
    × ((l.count + 1) % ull_mod ≡ 0)
    × (l.count ≢ length l.nodes)
sll_pop-miscounts_example = sll_pop-miscounts pair [] (omega arith)

sll_add-Writes_example : Chain.Writes 3 2 one (sll_add one 3)
unfolding value_of
sll_add-Writes_example = sll_add-Writes one 3 one-IsProper (omega arith)

sll_remove-Writes_example : Chain.Writes 3 0 one (sll_remove one 3)
unfolding value_of
sll_remove-Writes_example = sll_remove-Writes one 3 one-IsProper

-- a table at any level that holds the address 0 once
unfoldable pub single : ℕ → Table
single level =
    table 1 level (4 * level) (λ _. null)
      (update (λ _. no_pairs) 0 (record { count = 1; nodes = record { key = 0; value = 1 } ∷ [] }))

abbrev zero_list : LinkedList
zero_list = record { count = 1; nodes = record { key = 0; value = 1 } ∷ [] }

zero_list-IsList : (level : ℕ) → IsList level 0 zero_list
unfolding value_of occ
zero_list-IsList level = record {
  proper = record { exact = λ k. ground arith; small = λ k. ground arith };
  placed = λ k h. let e : k ≡ 0 = ground arith in rw e (omega arith, zero-mod (span level));
  honest = λ _. refl;
}

no_pairs-IsList : (level residue : ℕ) → IsList level residue no_pairs
unfolding occ
no_pairs-IsList level residue = record {
  proper = IsProper-nil;
  placed = λ k h. absurd (omega arith);
  honest = λ _. refl;
}

single-IsList :
    (level i : ℕ) → IsList (suc level) (0 + span level * i) (update (λ _. no_pairs) 0 zero_list i)
single-IsList level i = elim (Bool-cases (i == 0)) [
  | inl e ↦
      let first : i ≡ 0 = ground arith in
      let here : 0 + span level * i ≡ 0 = rw first (omega arith) in
      rw (e, here) (zero_list-IsList (suc level))
  | inr e ↦ rw e (no_pairs-IsList (suc level) _)
]

pub single-IsTable : (level : ℕ) → level < 16 → IsTable level 0 (single level)
unfolding single total size_in
single-IsTable level h = (
  refl,
  record {
    within = h;
    residue_lt = span-pos level;
    at_level = refl;
    shifted = refl;
    counted = refl;
  },
  λ i p. single-IsList level i,
)

single-IsMergeable : (level : ℕ) → IsMergeable (single level)
unfolding single
single-IsMergeable level = λ i h. tt

put-Updates_example :
    (t : Table) × (put levels (single 0) 7 ≡ some t) × IsRoot t × Updates (single 0) t 7 1
unfolding references value_in single value_of
put-Updates_example =
    put-Updates (single 0) 7 (single-IsTable 0 (omega arith)) (omega arith) (omega arith)
      (omega arith)

delete-Updates_example :
    (t : Table) × (delete levels (single 0) 0 ≡ some t)
    × IsRoot t
    × IsMergeable t
    × Updates (single 0) t 0 0
unfolding references value_in single value_of
delete-Updates_example =
    delete-Updates (single 0) 0 (single-IsTable 0 (omega arith)) (single-IsMergeable 0)
      (omega arith) (omega arith)

-- a table whose only address is in an inner table
abbrev nested_tables : ℕ → Table
unfolding single
nested_tables = update (λ _. null) 0 (single 2)

nested-IsBucket : (i : ℕ) → i < 16 → IsBucket 2 (0 + span 1 * i) (nested_tables i) no_pairs
unfolding single
nested-IsBucket i h = elim (Bool-cases (i == 0)) [
  | inl e ↦
      let first : i ≡ 0 = ground arith in
      let here : 0 + span 1 * i ≡ 0 = omega arith in rw (e, here) (single-IsTable 2 (omega arith))
  | inr e ↦ rw e (no_pairs-IsList 2 _)
]

merge-loses_example :
    (l : LinkedList) × (merge (table 1 1 4 nested_tables (λ _. no_pairs)) no_pairs ≡ some (null, l))
    × ((q : ℕ) → nested_tables (bucket_index q 4) ≢ null → value_in null l q ≡ 0)
unfolding single total size_in
merge-loses_example =
    merge-loses 1 0 1 1 4 nested_tables (λ _. no_pairs) no_pairs
      (
        refl,
        record {
          within = omega arith;
          residue_lt = omega arith;
          at_level = refl;
          shifted = refl;
          counted = refl;
        },
        nested-IsBucket,
      )
      refl (omega arith)
