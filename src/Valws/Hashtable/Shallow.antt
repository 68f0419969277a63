-- ===== src/Valws/Hashtable/Shallow.antt =====
-- Tables of at most two levels: as long as no more than `split_size` keys have the same two last
-- digits, no bucket of an inner table is expanded, and so a merge loses nothing.
use mathlib.Core.Option.{some-injective}
use mathlib.Core.Path.{subst}
use native.Mathlib.Decide.{ℕ_discrete}
use c380_1code.Base.{
  ℕ, suc, ◌+◌, ◌*◌, ◌%◌, ◌≤◌, ◌<◌, ◌≡◌, refl, sym, ap, ◌∙◌, false, Option, some, List, arith, ltb,
  ◌==◌, if◌then◌else◌, length, ull_mod, inc, update,
}
use c380_1code.Valws.Common.{KeyValue, split_size}
use c380_1code.Valws.LinkedList.{LinkedList, sll_add, sll_put_key_value}
use c380_1code.Valws.LinkedList.Contents as Chain
use c380_1code.Valws.LinkedList.Contents.{value_of, occ, present, IsProper}
use c380_1code.Valws.LinkedList.Operations.{sll_put_key_value-Writes, sll_add-Writes, count-sll_add}
use c380_1code.Valws.Hashtable.{
  Table, null, table, bucket_index, count_up, split, put, hashtable_put_key_value,
}
use c380_1code.Valws.Hashtable.Contents.{value_in, size_in, IsTable, no_pairs}
use c380_1code.Valws.Hashtable.Place.{span, index_of-residue}
use c380_1code.Valws.Hashtable.Buckets.{
  value_in-list, value_in-step, grown-IsList, grown-count, bucket_home, bucket-IsList, bucket_room,
  count-sll_put_key_value,
}
use c380_1code.Valws.Hashtable.Drain.{IsThick, IsMergeable}

-- No more than `split_size` keys with the same two last digits have a value.
abbrev pub IsSparse : (ℕ → ℕ) → Type 0
IsSparse f =
    (r : ℕ) (ns : List KeyValue)
    → IsProper ns
    → ((k : ℕ) → 0 < occ k ns → (k % span 2 ≡ r) × (0 < f k))
    → length ns ≤ split_size

-- The buckets of a table are not expanded, and the counts of their lists are true.
abbrev pub IsFlat : Table → Type 0
IsFlat null = Unit
IsFlat (table _ _ _ tables lists) =
    (i : ℕ) → i < 16 → (tables i ≡ null) × ((lists i).count ≡ length (lists i).nodes)

-- The inner tables are flat.
abbrev pub IsShallow : Table → Type 0
IsShallow null = Unit
IsShallow (table _ _ _ tables _) = (i : ℕ) → i < 16 → IsFlat (tables i)

pub IsFlat-IsThick : (t : Table) → IsFlat t → IsThick t
IsFlat-IsThick null h = tt
IsFlat-IsThick (table count at shifts tables lists) h = λ i lt. rw (h i lt).0 (tt, tt)

pub IsShallow-IsMergeable : (t : Table) → IsShallow t → IsMergeable t
IsShallow-IsMergeable null h = tt
IsShallow-IsMergeable (table count at shifts tables lists) h =
    λ i lt. IsFlat-IsThick (tables i) (h i lt)

-- the place of a key whose two last digits are those of a bucket
pub same_bucket :
    (k level r i shifts : ℕ)
    → shifts ≡ 4 * level
    → r < span level
    → k % span (suc level) ≡ r + span level * i
    → bucket_index k shifts ≡ i
same_bucket k level r i shifts e lt home = rw e (index_of-residue k level r i lt home)

module _ {r count at shifts : ℕ} (tables : ℕ → Table) (lists : ℕ → LinkedList)
    (valid : IsTable 1 r (table count at shifts tables lists))
    (flat : IsFlat (table count at shifts tables lists)) (k x : ℕ) (home : k % span 1 ≡ r)
    (small : k < ull_mod) (pos : 0 < x) (lt : x < ull_mod)
    (room : size_in (table count at shifts tables lists) no_pairs + 1 < ull_mod) where
  reads_here :
      (j i : ℕ)
      → i < 16
      → j % span 2 ≡ r + span 1 * i
      → value_in (table count at shifts tables lists) no_pairs j ≡ value_in (tables i) (lists i) j
  reads_here j i le home' =
      let same = same_bucket j 1 r i shifts valid.1.shifted valid.1.residue_lt home' in
      value_in-step count at shifts tables lists no_pairs j ∙ rw same refl

  -- the list of the bucket of `k` after a write to `k` is not longer than a sparse table allows
  written_list :
      (g : ℕ → ℕ) (l : LinkedList)
      → IsSparse g
      → ((j : ℕ)
          → j % span 1 ≡ r
          → 0 < (if j == k then x else value_in (table count at shifts tables lists) no_pairs j)
          → 0 < g j)
      → Chain.Writes k x (lists (bucket_index k shifts)) l
      → l.count ≡ (
          if value_of k (lists (bucket_index k shifts)).nodes == 0
          then inc (lists (bucket_index k shifts)).count
          else (lists (bucket_index k shifts)).count)
      → (ltb split_size l.count ≡ false) × (l.count ≡ length l.nodes)
  written_list g l sparse below w counted =
      let i = bucket_index k shifts in
      let (empty, honest) = flat i (omega arith) in
      let few = bucket_room tables lists valid k home room empty in
      let old = bucket-IsList tables lists valid k home empty in
      let new =
        grown-IsList (lists i) l w pos lt small (bucket_home tables lists valid k home) few counted
          old in
      let count_is : l.count ≡ length l.nodes =
        grown-count (lists i).count l.count (length (lists i).nodes) (length l.nodes)
          (value_of k (lists i).nodes) x pos few w.sized counted honest in
      let value : (j : ℕ) → 0 < occ j l.nodes → 0 < g j = λ j p.
        below j (omega (arith, new.placed j p, valid.1.residue_lt)) (
          ground (
            arith,
            reads_here j i (omega arith) (new.placed j p).1,
            value_in-list (tables i) (lists i) j empty,
            w.reads j,
            new.proper.exact j,
            p,
          )) in
      let short : length l.nodes ≤ split_size =
        sparse (r + span 1 * i) l.nodes new.proper (λ j p. ((new.placed j p).1, value j p)) in
      (ground (arith, count_is, short), count_is)

-- a flat table of which one list has changed
IsFlat-after :
    (count count' at shifts i : ℕ) (tables : ℕ → Table) (lists : ℕ → LinkedList) (l : LinkedList)
    → IsFlat (table count at shifts tables lists)
    → l.count ≡ length l.nodes
    → IsFlat (table count' at shifts (update tables i null) (update lists i l))
IsFlat-after count count' at shifts i tables lists l flat honest j lt = elim (ℕ_discrete j i) [
  | yes e ↦ (ground arith, ground (arith, honest))
  | no ne ↦ ground (arith, flat j lt)
]

-- what holds of the result of a call holds of it under another name
pub of_result {ℓ κ} :
    {A : Type ℓ} {o : Option A} (P : A → Type κ) {a b : A} → o ≡ some a → o ≡ some b → P a → P b
of_result P p q = subst P (some-injective _ _ (sym p ∙ q))

-- `split` on a list that is short enough
split-short :
    (insert : Table → KeyValue → Option Table) (at : ℕ) (l : LinkedList)
    → ltb split_size l.count ≡ false
    → split insert at l ≡ some (null, l)
unfolding split
split-short insert at l short = rw short refl

pub put-short :
    (fuel count at shifts k : ℕ) (tables : ℕ → Table) (lists : ℕ → LinkedList)
    → tables (bucket_index k shifts) ≡ null
    → ltb split_size (sll_add (lists (bucket_index k shifts)) k).count ≡ false
    → put (suc fuel) (table count at shifts tables lists) k
      ≡ some (
          table
            (count_up count
              (lists (bucket_index k shifts)).count
              (sll_add (lists (bucket_index k shifts)) k).count)
            at
            shifts
            (update tables (bucket_index k shifts) null)
            (update lists (bucket_index k shifts) (sll_add (lists (bucket_index k shifts)) k)))
unfolding put split
put-short fuel count at shifts k tables lists empty short = rw (empty, short, put) refl

hashtable_put_key_value-short :
    (fuel count at shifts : ℕ) (kv : KeyValue) (tables : ℕ → Table) (lists : ℕ → LinkedList)
    → tables (bucket_index kv.key shifts) ≡ null
    → ltb split_size (sll_put_key_value (lists (bucket_index kv.key shifts)) kv).count ≡ false
    → hashtable_put_key_value (suc fuel) (table count at shifts tables lists) kv
      ≡ some (
          table
            (count_up count
              (lists (bucket_index kv.key shifts)).count
              (sll_put_key_value (lists (bucket_index kv.key shifts)) kv).count)
            at
            shifts
            (update tables (bucket_index kv.key shifts) null)
            (update lists
              (bucket_index kv.key shifts)
              (sll_put_key_value (lists (bucket_index kv.key shifts)) kv)))
unfolding hashtable_put_key_value split
hashtable_put_key_value-short fuel count at shifts kv tables lists empty short =
    rw (empty, short, hashtable_put_key_value) refl

-- the keys of a flat table at level 1 after a write have a value in `g`
abbrev pub Bounds : ℕ → (t : Table) (k x : ℕ) (g : ℕ → ℕ) → Type 0
Bounds r t k x g =
    IsSparse g
    × ((j : ℕ) → j % span 1 ≡ r → 0 < (if j == k then x else value_in t no_pairs j) → 0 < g j)

pub put-Flat :
    (fuel k r : ℕ) (t t' : Table) (g : ℕ → ℕ)
    → IsTable 1 r t
    → IsFlat t
    → k % span 1 ≡ r
    → k < ull_mod
    → value_in t no_pairs k + 1 < ull_mod
    → size_in t no_pairs + 1 < ull_mod
    → Bounds r t k (value_in t no_pairs k + 1) g
    → put (suc fuel) t k ≡ some t'
    → IsFlat t'
put-Flat fuel k r null t' g valid flat home small lt room bounds run = absurd valid
put-Flat fuel k r (table count at shifts tables lists) t' g valid flat home small lt room
      (sparse, below) run =
    let i = bucket_index k shifts in
    let (empty, honest) = flat i (omega arith) in
    let value =
      value_in-step count at shifts tables lists no_pairs k
      ∙ value_in-list (tables i) (lists i) k empty in
    let old = bucket-IsList tables lists valid k home empty in
    let lt' : value_of k (lists i).nodes + 1 < ull_mod = rw value at lt in
    let (short, honest') =
      written_list tables lists valid flat k (value_of k (lists i).nodes + 1) home small
        (omega arith) lt' room g (sll_add (lists i) k) sparse (rw value at below)
        (sll_add-Writes (lists i) k old.proper lt') (count-sll_add (lists i) k old.proper) in
    of_result IsFlat (put-short fuel count at shifts k tables lists empty short) run
      (IsFlat-after count count at shifts i tables lists (sll_add (lists i) k) flat honest')

pub hashtable_put_key_value-Flat :
    (fuel r : ℕ) (kv : KeyValue) (t t' : Table) (g : ℕ → ℕ)
    → IsTable 1 r t
    → IsFlat t
    → kv.key % span 1 ≡ r
    → kv.key < ull_mod
    → value_in t no_pairs kv.key ≡ 0
    → 0 < kv.value
    → kv.value < ull_mod
    → size_in t no_pairs + 1 < ull_mod
    → Bounds r t kv.key kv.value g
    → hashtable_put_key_value (suc fuel) t kv ≡ some t'
    → IsFlat t'
hashtable_put_key_value-Flat fuel r kv null t' g valid flat home small new pos lt room bounds run =
    absurd valid
hashtable_put_key_value-Flat fuel r kv (table count at shifts tables lists) t' g valid flat home
      small new pos lt room (sparse, below) run =
    let k = kv.key in
    let i = bucket_index k shifts in
    let (empty, honest) = flat i (omega arith) in
    let fresh : value_of k (lists i).nodes ≡ 0 =
      sym (
        value_in-step count at shifts tables lists no_pairs k
        ∙ value_in-list (tables i) (lists i) k empty)
      ∙ new in
    let old = bucket-IsList tables lists valid k home empty in
    let absent : occ k (lists i).nodes ≡ 0 = old.proper.exact k ∙ ap present fresh in
    let (short, honest') =
      written_list tables lists valid flat k kv.value home small pos lt room g
        (sll_put_key_value (lists i) kv) sparse below
        (sll_put_key_value-Writes (lists i) kv absent pos)
        (count-sll_put_key_value (lists i) kv fresh) in
    of_result IsFlat
      (hashtable_put_key_value-short fuel count at shifts kv tables lists empty short) run
      (IsFlat-after count count at shifts i tables lists (sll_put_key_value (lists i) kv) flat
        honest')
