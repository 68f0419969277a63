-- ===== src/Valws/Hashtable/Buckets.antt =====
-- What a table that is part of a larger one gives its buckets: their pairs, and the room for the counts.
use c380_1code.Base.{
  ℕ, zero, suc, ◌+◌, ◌*◌, ◌/◌, ◌%◌, ◌^◌, ◌<◌, ◌≡◌, ◌≢◌, refl, sym, ap, ◌∙◌, arith, le-total, ◌==◌,
  if◌then◌else◌, length, ull_mod, inc,
}
use c380_1code.Valws.Common.{KeyValue}
use c380_1code.Valws.LinkedList.{LinkedList, sll_put_key_value}
use c380_1code.Valws.LinkedList.Contents as Chain
use c380_1code.Valws.LinkedList.Contents.{value_of, occ, present}
use c380_1code.Valws.Hashtable.{Table, null, table, bucket_index}
use c380_1code.Valws.Hashtable.Contents.{
  value_in, size_in, IsList, IsTable, no_pairs, value_in-table, size_in-table,
}
use c380_1code.Valws.Hashtable.Insert.{Writes-IsList, size_in-list}
use c380_1code.Valws.Hashtable.Place.{span, residue-suc}

pub value_in-list :
    (t : Table) (l : LinkedList) (k : ℕ) → t ≡ null → value_in t l k ≡ value_of k l.nodes
unfolding value_in
value_in-list t l k e = rw e

pub value_in-step :
    (count at shifts : ℕ) (tables : ℕ → Table) (lists : ℕ → LinkedList) (l : LinkedList) (k : ℕ)
    → value_in (table count at shifts tables lists) l k
      ≡ value_in (tables (bucket_index k shifts)) (lists (bucket_index k shifts)) k
unfolding value_in
value_in-step count at shifts tables lists l k = refl

pub grown-count :
    (old new before after value x : ℕ)
    → 0 < x
    → before + 1 < ull_mod
    → after + present value ≡ before + present x
    → new ≡ (if value == 0 then inc old else old)
    → old ≡ before
    → new ≡ after
grown-count old new before after zero (suc x) pos room sized counted e = ground arith
grown-count old new before after (suc value) (suc x) pos room sized counted e = ground arith
grown-count old new before after value zero pos room sized counted e = absurd (omega arith)

pub count-sll_put_key_value :
    (l : LinkedList) (kv : KeyValue)
    → value_of kv.key l.nodes ≡ 0
    → (sll_put_key_value l kv).count
      ≡ (if value_of kv.key l.nodes == 0 then inc l.count else l.count)
unfolding sll_put_key_value
count-sll_put_key_value l kv h = rw h

-- a list to which a write has added a pair or not
pub grown-IsList :
    {level residue k x : ℕ} (l l' : LinkedList)
    → Chain.Writes k x l l'
    → 0 < x
    → x < ull_mod
    → k < ull_mod
    → k % span level ≡ residue
    → length l.nodes + 1 < ull_mod
    → l'.count ≡ (if value_of k l.nodes == 0 then inc l.count else l.count)
    → IsList level residue l
    → IsList level residue l'
grown-IsList {k} {x} l l' w pos lt small home room counted h = Writes-IsList w lt small home h (λ e.
    grown-count l.count l'.count _ _ (value_of k l.nodes) x pos room w.sized counted (h.honest e))

module _ {level residue count at shifts : ℕ} (tables : ℕ → Table) (lists : ℕ → LinkedList)
    (valid : IsTable level residue (table count at shifts tables lists)) (k : ℕ)
    (home : k % span level ≡ residue) where
  pub bucket_home : k % span (suc level) ≡ residue + span level * bucket_index k shifts
  bucket_home =
      residue-suc k level residue _ home (ap (λ (s : ℕ). k / 2 ^ s % 16) (sym valid.1.shifted))

  -- the list of the bucket of `k`, which has no table
  pub bucket-IsList :
      tables (bucket_index k shifts) ≡ null
      → IsList
          (suc level)
          (residue + span level * bucket_index k shifts)
          (lists (bucket_index k shifts))
  bucket-IsList e = rw e at (valid.2 (bucket_index k shifts) (omega arith))

  pub bucket_room :
      size_in (table count at shifts tables lists) no_pairs + 1 < ull_mod
      → tables (bucket_index k shifts) ≡ null
      → length (lists (bucket_index k shifts)).nodes + 1 < ull_mod
  unfolding size_in
  bucket_room room e =
      let i = bucket_index k shifts in
      omega (
        arith,
        le-total 16 i (λ j. size_in (tables j) (lists j)) (omega arith),
        size_in-list (tables i) (lists i) e,
      )

  -- the table of the bucket of `k`
  pub bucket_table :
      (child : Table)
      → tables (bucket_index k shifts) ≡ child
      → child ≢ null
      → IsTable (suc level) (residue + span level * bucket_index k shifts) child
  bucket_table null e ne = absurd (ne refl)
  bucket_table (table c v s ts ls) e ne =
      let b = rw e at (valid.2 (bucket_index k shifts) (omega arith)) in (refl, b.1, b.2)

  pub child_room :
      (child : Table)
      → tables (bucket_index k shifts) ≡ child
      → IsTable (suc level) (residue + span level * bucket_index k shifts) child
      → size_in (table count at shifts tables lists) no_pairs + 1 < ull_mod
      → size_in child no_pairs + 1 < ull_mod
  unfolding size_in
  child_room child e old room =
      let i = bucket_index k shifts in
      omega (
        arith,
        le-total 16 i (λ j. size_in (tables j) (lists j)) (omega arith),
        ap (λ (t : Table). size_in t (lists i)) e,
        size_in-table (suc level) (residue + span level * i) child (lists i) old,
      )

  pub child_value :
      (child : Table)
      → tables (bucket_index k shifts) ≡ child
      → IsTable (suc level) (residue + span level * bucket_index k shifts) child
      → value_in child no_pairs k ≡ value_in (table count at shifts tables lists) no_pairs k
  child_value child e old =
      let i = bucket_index k shifts in
      sym (
        value_in-step count at shifts tables lists no_pairs k
        ∙ (rw e (value_in-table (suc level) (residue + span level * i) child (lists i) k old)))

  pub count_room :
      size_in (table count at shifts tables lists) no_pairs + 1 < ull_mod → count + 1 < ull_mod
  unfolding size_in
  count_room room = omega (arith, valid.1.counted)
