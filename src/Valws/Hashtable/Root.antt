-- ===== src/Valws/Hashtable/Root.antt =====
-- The hash table as its users see it: the table that `new_hashtable` returns and what `put` and
-- `delete` make of it, against a function from addresses to numbers of references.
use c380_1code.Base.{ℕ, ◌+◌, ◌-◌, ◌<◌, ◌≡◌, some, refl, arith, ◌==◌, if◌then◌else◌, ull_mod}
use c380_1code.Valws.Hashtable.{Table, count_of, new_hashtable, put, delete}
use c380_1code.Valws.Hashtable.Contents.{value_in, IsTable, no_pairs, Writes, count_of-size}
use c380_1code.Valws.Hashtable.Split.{
  new_table, new_table-IsTable, new_hashtable_at-new, value_in-new,
}
use c380_1code.Valws.Hashtable.Put.{put-Puts}
use c380_1code.Valws.Hashtable.Drain.{IsMergeable}
use c380_1code.Valws.Hashtable.Delete.{delete-Deletes}

-- the levels of a table of 64-bit addresses, which is the fuel of its operations
abbrev pub levels : ℕ
levels = 16

abbrev pub IsRoot : Table → Type 0
IsRoot t = IsTable 0 0 t

-- how often an address is in the table
unfoldable pub references : Table → ℕ → ℕ
references t address = value_in t no_pairs address

-- `t'` is `t` but for `address`, which has `x` references, and its count has changed accordingly
pub record Updates (t t' : Table) (address x : ℕ) : Type 0 where
  pub reads : (j : ℕ) → references t' j ≡ (if j == address then x else references t j)
  pub counted :
      count_of t' + (if references t address == 0 then 0 else 1)
      ≡ count_of t + (if x == 0 then 0 else 1)

Writes-Updates :
    {t t' : Table} {k x : ℕ}
    → IsRoot t
    → IsRoot t'
    → Writes k x t no_pairs t' no_pairs
    → Updates t t' k x
unfolding references
Writes-Updates {t} {t'} valid valid' w = record {
  reads = w.reads;
  counted = ground (arith, w.sized, count_of-size 0 0 t valid, count_of-size 0 0 t' valid');
}

-- A new table is well formed and empty, and no merge in it can lose anything.
pub new_hashtable_lem :
    (t : Table) × (new_hashtable ≡ some t)
    × IsRoot t
    × IsMergeable t
    × (count_of t ≡ 0)
    × ((j : ℕ) → references t j ≡ 0)
unfolding new_hashtable references new_table
new_hashtable_lem = (
  new_table 0,
  new_hashtable_at-new 0 (omega arith),
  new_table-IsTable 0 0 (omega arith) (omega arith),
  λ i h. tt,
  refl,
  value_in-new 0,
)

-- On every well-formed table, for a 64-bit address whose references, like the table's count, have
-- room for one more, `put` returns: the table stays well formed, the address has one reference more,
-- every other address has its references, and the count grows by one exactly if the address is new.
pub put-Updates :
    (t : Table) (address : ℕ)
    → IsRoot t
    → address < ull_mod
    → references t address + 1 < ull_mod
    → count_of t + 1 < ull_mod
    → (t' : Table) × (put levels t address ≡ some t')
      × IsRoot t'
      × Updates t t' address (references t address + 1)
unfolding references
put-Updates t address valid small room count_room =
    let size = count_of-size 0 0 t valid in
    let (t', run, valid', w) =
      put-Puts 16 0 0 (omega arith) (omega arith) address small t valid (omega arith) room
        (omega arith) in
    (t', run, valid', Writes-Updates valid valid' w)

-- On a well-formed table with a 64-bit count of which every table two or more levels down has at least six pairs,
-- `delete` of a 64-bit address returns: both conditions hold again, the address has one reference
-- less if it had any, every other address has its references, and the count falls by one exactly if
-- the last reference has gone.
pub delete-Updates :
    (t : Table) (address : ℕ)
    → IsRoot t
    → IsMergeable t
    → address < ull_mod
    → count_of t < ull_mod
    → (t' : Table) × (delete levels t address ≡ some t')
      × IsRoot t'
      × IsMergeable t'
      × Updates t t' address (references t address - 1)
unfolding references
delete-Updates t address valid mergeable small room =
    let size = count_of-size 0 0 t valid in
    let (t', run, valid', w, mergeable', _) =
      delete-Deletes 16 0 0 (omega arith) (omega arith) address small t valid (omega arith)
        (omega arith) mergeable in
    (t', run, valid', mergeable', Writes-Updates valid valid' w)
