-- ===== src/Valws/Hashtable/Contents.antt =====
-- What a bucket holds, when it is well formed, and what a write to it is.
use native.Mathlib.Decide.{ℕ_discrete}
use c380_1code.Base.{
  ℕ, suc, ◌+◌, ◌*◌, ◌%◌, ◌<◌, ◌≡◌, ◌≢◌, refl, ap, [], arith, ◌==◌, if◌then◌else◌, length, total,
  total-change, update, ull_mod,
}
use c380_1code.Valws.LinkedList.{LinkedList}
use c380_1code.Valws.LinkedList.Contents as Chain
use c380_1code.Valws.LinkedList.Contents.{value_of, occ, present, IsProper}
use c380_1code.Valws.Hashtable.{Table, null, table, bucket_index, count_of}
use c380_1code.Valws.Hashtable.Place.{span}

-- The value of a key in a bucket: of its list, or on the key's path through its table. A table
-- by itself is a bucket with an empty list.
unfoldable pub value_in : Table → LinkedList → ℕ → ℕ
value_in null l k = value_of k l.nodes
value_in (table _ _ shifts tables lists) l k =
    value_in (tables (bucket_index k shifts)) (lists (bucket_index k shifts)) k

-- the number of pairs in a bucket
unfoldable pub size_in : Table → LinkedList → ℕ
size_in null l = length l.nodes
size_in (table _ _ _ tables lists) l = total 16 (λ i. size_in (tables i) (lists i))

-- A list in a bucket below `level` tables, whose keys leave `residue` modulo 16 ^ level. Only at
-- the last level must the count be true: elsewhere `sll_pop` may have spoiled it.
pub record IsList (level residue : ℕ) (l : LinkedList) : Type 0 where
  pub proper : IsProper l.nodes
  pub placed : (k : ℕ) → 0 < occ k l.nodes → (k < ull_mod) × (k % span level ≡ residue)
  pub honest : level ≡ 16 → l.count ≡ length l.nodes

-- the fields of a table at `level` whose buckets hold `size` pairs
pub record IsHeader (level residue count at shifts size : ℕ) : Type 0 where
  pub within : level < 16
  pub residue_lt : residue < span level
  pub at_level : at ≡ level
  pub shifted : shifts ≡ 4 * level
  pub counted : count ≡ size

abbrev pub IsBucket : ℕ → ℕ → Table → LinkedList → Type 0
IsBucket level residue null l = IsList level residue l
IsBucket level residue (table count at shifts tables lists) l =
    (l.nodes ≡ [])
    × IsHeader level residue count at shifts (total 16 (λ i. size_in (tables i) (lists i)))
    × ((i : ℕ) → i < 16 → IsBucket (suc level) (residue + span level * i) (tables i) (lists i))

abbrev pub no_pairs : LinkedList
no_pairs = record { count = 0; nodes = [] }

-- a pointer to a well-formed table
abbrev pub IsTable : ℕ → ℕ → Table → Type 0
IsTable level residue null = ⊥
IsTable level residue (table count at shifts tables lists) =
    IsBucket level residue (table count at shifts tables lists) no_pairs

-- A table stands in a bucket with an empty list, and the list plays no part.
pub IsTable-IsBucket :
    (level residue : ℕ) (t : Table) (l : LinkedList)
    → IsTable level residue t
    → l.nodes ≡ []
    → IsBucket level residue t l
IsTable-IsBucket level residue null l h e = absurd h
IsTable-IsBucket level residue (table count at shifts tables lists) l h e = (e, h.1, h.2)

pub value_in-table :
    (level residue : ℕ) (t : Table) (l : LinkedList) (k : ℕ)
    → IsTable level residue t
    → value_in t l k ≡ value_in t no_pairs k
unfolding value_in
value_in-table level residue null l k h = absurd h
value_in-table level residue (table count at shifts tables lists) l k h = refl

pub size_in-table :
    (level residue : ℕ) (t : Table) (l : LinkedList)
    → IsTable level residue t
    → size_in t l ≡ size_in t no_pairs
unfolding size_in
size_in-table level residue null l h = absurd h
size_in-table level residue (table count at shifts tables lists) l h = refl

-- `(t', l')` is the bucket `(t, l)` but for the key `k`, which has the value `x`; 0 is absence
pub record Writes (k x : ℕ) (t : Table) (l : LinkedList) (t' : Table) (l' : LinkedList)
    : Type 0 where
  pub reads : (j : ℕ) → value_in t' l' j ≡ (if j == k then x else value_in t l j)
  pub sized : size_in t' l' + present (value_in t l k) ≡ size_in t l + present x

pub Writes-list : {k x : ℕ} {l l' : LinkedList} → Chain.Writes k x l l' → Writes k x null l null l'
unfolding value_in size_in
Writes-list w = record { reads = λ j. w.reads j; sized = w.sized }

-- two buckets that hold the same
pub record Same (t : Table) (l : LinkedList) (t' : Table) (l' : LinkedList) : Type 0 where
  pub reads : (j : ℕ) → value_in t' l' j ≡ value_in t l j
  pub sized : size_in t' l' ≡ size_in t l

pub Writes-Same :
    {k x : ℕ} {t t' t'' : Table} {l l' l'' : LinkedList}
    → Writes k x t l t' l'
    → Same t' l' t'' l''
    → Writes k x t l t'' l''
Writes-Same {k} w s = record {
  reads = λ j. ground (arith, w.reads j, s.reads j);
  sized = omega (arith, w.sized, s.sized);
}

pub Writes-grows :
    {k x : ℕ} {t t' : Table} {l l' : LinkedList}
    → Writes k x t l t' l'
    → value_in t l k ≡ 0
    → 0 < x
    → size_in t' l' ≡ size_in t l + 1
Writes-grows {k} {x} {t} {l} w h p = ground (arith, w.sized)

-- a write to a table is a write to the bucket that it stands in
pub Writes-table :
    {k x : ℕ} (level residue : ℕ) (t t' : Table) (l : LinkedList)
    → IsTable level residue t
    → IsTable level residue t'
    → Writes k x t no_pairs t' no_pairs
    → Writes k x t l t' l
Writes-table {k} {x} level residue t t' l old new w = record {
  reads = λ j.
      rw (value_in-table level residue t' l j new, value_in-table level residue t l j old)
        (w.reads j);
  sized = omega (
    arith,
    ap present (value_in-table level residue t l k old),
    size_in-table level residue t' l new,
    size_in-table level residue t l old,
    w.sized,
  );
}

pub count_of-size :
    (level residue : ℕ) (t : Table) → IsTable level residue t → count_of t ≡ size_in t no_pairs
unfolding size_in
count_of-size level residue null h = absurd h
count_of-size level residue (table count at shifts tables lists) h = h.1.counted

pub nodes-bucket :
    (level residue : ℕ) (t : Table) (l : LinkedList)
    → IsTable level residue t
    → IsBucket level residue t l
    → l.nodes ≡ []
nodes-bucket level residue null l h b = absurd h
nodes-bucket level residue (table count at shifts tables lists) l h b = b.0

-- the arrays `tables'` and `lists'` are `tables` and `lists` but for the bucket `i`, which is
-- `(t, l)`
pub record Replaces (i : ℕ) (tables : ℕ → Table) (lists : ℕ → LinkedList) (t : Table)
    (l : LinkedList) (tables' : ℕ → Table) (lists' : ℕ → LinkedList) : Type 0 where
  pub table_here : tables' i ≡ t
  pub list_here : lists' i ≡ l
  pub table_else : (j : ℕ) → j ≢ i → tables' j ≡ tables j
  pub list_else : (j : ℕ) → j ≢ i → lists' j ≡ lists j

pub Replaces-update :
    (i : ℕ) (tables : ℕ → Table) (lists : ℕ → LinkedList) (t : Table) (l : LinkedList)
    → Replaces i tables lists t l (update tables i t) (update lists i l)
Replaces-update i tables lists t l = record {
  table_here = ground arith;
  list_here = ground arith;
  table_else = λ j h. ground arith;
  list_else = λ j h. ground arith;
}

pub Replaces-table :
    (i : ℕ) (tables : ℕ → Table) (lists : ℕ → LinkedList) (t : Table)
    → Replaces i tables lists t (lists i) (update tables i t) lists
Replaces-table i tables lists t = record {
  table_here = ground arith;
  list_here = refl;
  table_else = λ j h. ground arith;
  list_else = λ j h. refl;
}

pub Replaces-list :
    (i : ℕ) (tables : ℕ → Table) (lists : ℕ → LinkedList) (l : LinkedList)
    → Replaces i tables lists (tables i) l tables (update lists i l)
Replaces-list i tables lists l = record {
  table_here = refl;
  list_here = ground arith;
  table_else = λ j h. refl;
  list_else = λ j h. ground arith;
}

module _ {i : ℕ} {tables tables' : ℕ → Table} {lists lists' : ℕ → LinkedList} {t : Table}
    {l : LinkedList} (same : Replaces i tables lists t l tables' lists') where
  pub size-Replaces :
      i < 16
      → total 16 (λ j. size_in (tables' j) (lists' j)) + size_in (tables i) (lists i)
        ≡ total 16 (λ j. size_in (tables j) (lists j)) + size_in t l
  size-Replaces h =
      rw (← same.table_here, ← same.list_here)
        (total-change 16 i (λ j. size_in (tables' j) (lists' j)) (λ j. size_in (tables j) (lists j))
          h (λ j _ ne. rw (same.table_else j ne, same.list_else j ne)))

  -- a write to the bucket of `k` is a write to the table
  pub replace-Writes :
      {k x shifts : ℕ}
      → bucket_index k shifts ≡ i
      → Writes k x (tables i) (lists i) t l
      → (e : LinkedList) (count count' at : ℕ)
      → Writes k x (table count at shifts tables lists) e (table count' at shifts tables' lists') e
  unfolding value_in size_in
  replace-Writes {k} {x} {shifts} home w e count count' at = record {
    reads = λ j. elim (ℕ_discrete (bucket_index j shifts) i) [
      | yes here ↦ rw (here, same.table_here, same.list_here) (w.reads j)
      | no there ↦ rw (same.table_else _ there, same.list_else _ there) (ground arith)
    ];
    sized = rw home (omega (arith, size-Replaces (omega arith), w.sized));
  }

  -- and the table is well formed if the bucket is and the new count fits
  pub replace-IsBucket :
      {level residue count at shifts : ℕ} (e : LinkedList)
      → IsBucket level residue (table count at shifts tables lists) e
      → i < 16
      → IsBucket (suc level) (residue + span level * i) t l
      → (count' : ℕ) → count' + size_in (tables i) (lists i) ≡ count + size_in t l
      → IsBucket level residue (table count' at shifts tables' lists') e
  replace-IsBucket e (empty, header, buckets) h bucket count' counted = (
    empty,
    record {
      within = header.within;
      residue_lt = header.residue_lt;
      at_level = header.at_level;
      shifted = header.shifted;
      counted = omega (arith, size-Replaces h, header.counted);
    },
    λ j lt. elim (ℕ_discrete j i) [
      | yes here ↦ rw (here, same.table_here, same.list_here) bucket
      | no there ↦ rw (same.table_else j there, same.list_else j there) (buckets j lt)
    ],
  )
