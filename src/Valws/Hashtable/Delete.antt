-- ===== src/Valws/Hashtable/Delete.antt =====
-- `delete`: on a table whose inner tables can be merged it returns, keeps the table well formed,
-- and lowers the value of one key.
use native.Mathlib.Decide.{ℕ_discrete}
use mathlib.Core.Path.{subst}
use c380_1code.Base.{
  ℕ, zero, suc, ◌+◌, ◌-◌, ◌*◌, ◌%◌, ◌≤◌, ◌<◌, ◌≡◌, Option, some, refl, sym, ap, ◌∙◌, arith, ◌==◌,
  if◌then◌else◌, length, le-total, update, ull_mod, dec, ◌>>=◌,
}
use c380_1code.Valws.LinkedList.{LinkedList, sll_remove}
use c380_1code.Valws.LinkedList.Contents.{value_of, present}
use c380_1code.Valws.LinkedList.Operations.{sll_remove-Writes, count-sll_remove}
use c380_1code.Valws.Hashtable.{
  Table, null, table, bucket_index, count_of, count_down, merge, delete,
}
use c380_1code.Valws.Hashtable.Contents.{
  value_in, size_in, IsList, IsTable, no_pairs, Writes, Writes-list, Writes-Same, Same,
  Writes-table, size_in-table, count_of-size, nodes-bucket, Replaces-list, Replaces-update,
  replace-Writes, replace-IsBucket,
}
use c380_1code.Valws.Hashtable.Insert.{Table-cases, is_null, is_table, Writes-IsList, size_in-list}
use c380_1code.Valws.Hashtable.Buckets.{
  value_in-list, value_in-step, bucket_home, bucket-IsList, bucket_table, child_value,
}
use c380_1code.Valws.Hashtable.Merge.{merge-Same}
use c380_1code.Valws.Hashtable.Drain.{IsThick, IsMergeable, IsThick-IsMergeable}
use c380_1code.Valws.Hashtable.Place.{span}

-- the new count of a table from whose bucket a pair may have gone
count_down-list :
    (count old new before after value : ℕ)
    → count < ull_mod
    → before ≤ count
    → after + present value ≡ before + present (value - 1)
    → new ≡ (if value == 1 then dec old else old)
    → count_down count old new + before ≡ count + after
count_down-list count old new before after zero room le sized counted = ground arith
count_down-list count old new before after (suc zero) room le sized counted = ground arith
count_down-list count old new before after (suc (suc value)) room le sized counted = ground arith

count_down-table :
    (count old new value : ℕ)
    → count < ull_mod
    → old ≤ count
    → new + present value ≡ old + present (value - 1)
    → count_down count old new + old ≡ count + new
count_down-table count old new zero room le sized = ground arith
count_down-table count old new (suc zero) room le sized = ground arith
count_down-table count old new (suc (suc value)) room le sized = ground arith

pub shrunk-count :
    (old new before after value : ℕ)
    → before < ull_mod
    → after + present value ≡ before + present (value - 1)
    → new ≡ (if value == 1 then dec old else old)
    → old ≡ before
    → new ≡ after
shrunk-count old new before after zero room sized counted e = ground arith
shrunk-count old new before after (suc zero) room sized counted e = ground arith
shrunk-count old new before after (suc (suc value)) room sized counted e = ground arith

-- the outcome of a deletion: the inner tables can still be merged, and stay bulky if they were
abbrev pub Deleted : ℕ → ℕ → ℕ → ℕ → Table → Option Table → Type 0
Deleted level residue k x t r =
    (t' : Table) × (r ≡ some t')
    × IsTable level residue t'
    × Writes k x t no_pairs t' no_pairs
    × IsMergeable t'
    × (IsThick t → IsThick t')

-- what `run` does to a table at `level` on which the path of `k` leads
abbrev Deletes : ℕ → ℕ → ℕ → (Table → ℕ → Option Table) → Type 0
Deletes level residue k run =
    (t : Table)
    → IsTable level residue t
    → k % span level ≡ residue
    → size_in t no_pairs < ull_mod
    → IsMergeable t
    → Deleted level residue k (value_in t no_pairs k - 1) t (run t k)

module _ {level residue count at shifts : ℕ} (tables : ℕ → Table) (lists : ℕ → LinkedList)
    (valid : IsTable level residue (table count at shifts tables lists)) (fuel : ℕ) (k : ℕ)
    (small : k < ull_mod) (home : k % span level ≡ residue) (room : count < ull_mod)
    (mergeable : IsMergeable (table count at shifts tables lists)) where
  removed-IsList :
      (l : LinkedList)
      → length l.nodes < ull_mod
      → IsList (suc level) (residue + span level * bucket_index k shifts) l
      → IsList (suc level) (residue + span level * bucket_index k shifts) (sll_remove l k)
  removed-IsList l few h =
      let w = sll_remove-Writes l k h.proper in
      Writes-IsList w (omega (arith, h.proper.small k)) small
        (bucket_home tables lists valid k home) h
        (λ e.
          shrunk-count l.count _ _ _ (value_of k l.nodes) few w.sized
            (count-sll_remove l k h.proper) (h.honest e))

  bucket_size : size_in (tables (bucket_index k shifts)) (lists (bucket_index k shifts)) ≤ count
  bucket_size = omega (
    arith,
    le-total 16 (bucket_index k shifts) (λ j. size_in (tables j) (lists j)) (omega arith),
    valid.1.counted,
  )

  -- `delete` in a bucket with a list
  delete-list :
      (v : ℕ)
      → value_in (table count at shifts tables lists) no_pairs k ≡ v
      → tables (bucket_index k shifts) ≡ null
      → Deleted level residue k
          (v - 1)
          (table count at shifts tables lists)
          (delete (suc fuel) (table count at shifts tables lists) k)
  unfolding delete
  delete-list v old_value e =
      let i = bucket_index k shifts in
      let l = lists i in
      let first = value_in-step count at shifts tables lists no_pairs k in
      let here : value_of k l.nodes ≡ v =
        sym (value_in-list (tables i) l k e) ∙ (sym first ∙ old_value) in
      let is_list = bucket-IsList tables lists valid k home e in
      let sized = size_in-list (tables i) l e in
      let w = sll_remove-Writes l k is_list.proper in
      let l' = sll_remove l k in
      let count' = count_down count l.count l'.count in
      let replaced = Replaces-list i tables lists l' in
      let shrunk : count' + size_in (tables i) l ≡ count + size_in (tables i) l' = omega (
        arith,
        count_down-list count l.count l'.count (length l.nodes) (length l'.nodes)
            (value_of k l.nodes) room (omega (arith, sized, bucket_size)) w.sized
            (count-sll_remove l k is_list.proper),
        sized,
        size_in-list (tables i) l' e,
      ) in
      let few : length l.nodes < ull_mod = omega (arith, sized, bucket_size) in
      let writes : Writes k (v - 1) (tables i) l (tables i) l' = rw (e, ← here) (Writes-list w) in
      (
        table count' at shifts tables (update lists i l'),
        rw e,
        replace-IsBucket replaced no_pairs valid (omega arith) (rw e (removed-IsList l few is_list))
            count' shrunk,
        replace-Writes replaced refl writes no_pairs count count' at,
        mergeable,
        λ thick. thick,
      )

  -- the count over a bucket with a table, after the merge
  merged_count :
      (child inner t' : Table) (l' : LinkedList)
      → tables (bucket_index k shifts) ≡ child
      → IsTable (suc level) (residue + span level * bucket_index k shifts) child
      → IsTable (suc level) (residue + span level * bucket_index k shifts) inner
      → Writes k (value_in child no_pairs k - 1) child no_pairs inner no_pairs
      → Same inner (lists (bucket_index k shifts)) t' l'
      → count_down count (count_of child) (count_of inner)
          + size_in (tables (bucket_index k shifts)) (lists (bucket_index k shifts))
        ≡ count + size_in t' l'
  merged_count child inner t' l' e old new w same =
      let i = bucket_index k shifts in
      let r = residue + span level * i in
      let before = size_in-table (suc level) r child (lists i) old in
      let after = size_in-table (suc level) r inner (lists i) new in
      let place = ap (λ (t : Table). size_in t (lists i)) e in
      let le : size_in child no_pairs ≤ count = omega (arith, bucket_size) in
      rw (count_of-size (suc level) r child old, count_of-size (suc level) r inner new)
        (omega (
          arith,
          count_down-table count (size_in child no_pairs) (size_in inner no_pairs)
              (value_in child no_pairs k) room le w.sized,
          same.sized,
        ))

  -- `delete` in a bucket with a table
  delete-table :
      (v : ℕ)
      → value_in (table count at shifts tables lists) no_pairs k ≡ v
      → (child : Table) → tables (bucket_index k shifts) ≡ child
      → IsTable (suc level) (residue + span level * bucket_index k shifts) child
      → (inner : Table) → IsTable (suc level) (residue + span level * bucket_index k shifts) inner
      → Writes k (v - 1) child no_pairs inner no_pairs
      → IsThick inner
      → Deleted level residue k (v - 1) (table count at shifts tables lists) (do
        (inner', l) ← merge inner (lists (bucket_index k shifts))
        some (
            table
              (count_down count (count_of child) (count_of inner))
              at
              shifts
              (update tables (bucket_index k shifts) inner')
              (update lists (bucket_index k shifts) l)))
  delete-table v old_value child e old inner new w thick =
      let i = bucket_index k shifts in
      let r = residue + span level * i in
      let here : value_in child no_pairs k ≡ v =
        child_value tables lists valid k home child e old ∙ old_value in
      let empty =
        nodes-bucket (suc level) r child (lists i) old (rw e at (valid.2 i (omega arith))) in
      let (t', l', run, bucket, same, bulky, thick') =
        merge-Same (suc level) r inner (lists i) new thick empty in
      let count' = count_down count (count_of child) (count_of inner) in
      let replaced = Replaces-update i tables lists t' l' in
      let writes : Writes k (v - 1) (tables i) (lists i) t' l' =
        rw e (Writes-Same (Writes-table (suc level) r child inner (lists i) old new w) same) in
      (
        table count' at shifts (update tables i t') (update lists i l'),
        rw run,
        replace-IsBucket replaced no_pairs valid (omega arith) bucket count'
            (merged_count child inner t' l' e old new (rw here w) same),
        replace-Writes replaced refl writes no_pairs count count' at,
        λ j lt. elim (ℕ_discrete j i) [
          | yes p ↦ rw (p, replaced.table_here) thick'
          | no p ↦ rw (replaced.table_else j p) (mergeable j lt)
        ],
        λ all j lt. elim (ℕ_discrete j i) [
          | yes p ↦ rw (p, replaced.table_here) (bulky, thick')
          | no p ↦ rw (replaced.table_else j p) (all j lt)
        ],
      )

  delete-step :
      ((r : ℕ) → suc level < 16 → Deletes (suc level) r k (delete fuel))
      → (v : ℕ) → value_in (table count at shifts tables lists) no_pairs k ≡ v
      → Deleted level residue k
          (v - 1)
          (table count at shifts tables lists)
          (delete (suc fuel) (table count at shifts tables lists) k)
  unfolding delete
  delete-step ih v old_value =
      let i = bucket_index k shifts in
      elim (Table-cases (tables i)) [
        | is_null e ↦ delete-list v old_value e
        | is_table c at' s ts ls e ↦
            let child = table c at' s ts ls in
            let r = residue + span level * i in
            let old = bucket_table tables lists valid k home child e (λ h. absurd (cc)) in
            let here : value_in child no_pairs k ≡ v =
              child_value tables lists valid k home child e old ∙ old_value in
            let thick = rw e at (mergeable i (omega arith)) in
            let size : size_in child no_pairs < ull_mod = omega (
              arith,
              size_in-table (suc level) r child (lists i) old,
              ap (λ (t : Table). size_in t (lists i)) e,
              bucket_size,
            ) in
            let (inner, run, new, w, _, keeps) =
              ih r old.1.within child old (bucket_home tables lists valid k home) size
                (IsThick-IsMergeable child thick) in
            rw (e, run)
              (delete-table v old_value child e old inner new
                (subst (λ x. Writes k (x - 1) child no_pairs inner no_pairs) here w) (keeps thick))
      ]

pub delete-Deletes :
    (fuel level residue : ℕ)
    → 16 ≤ fuel + level
    → level < 16
    → (k : ℕ) → k < ull_mod
    → Deletes level residue k (delete fuel)
unfolding size_in
delete-Deletes zero level residue enough within k small t valid home room mergeable =
    absurd (omega arith)
delete-Deletes (suc fuel) level residue enough within k small null valid home room mergeable =
    absurd valid
delete-Deletes (suc fuel) level residue enough within k small (table count at shifts tables lists)
      valid home room mergeable =
    delete-step tables lists valid fuel k small home (omega (arith, valid.1.counted)) mergeable
      (λ r below. delete-Deletes fuel (suc level) r (omega arith) below k small) _ refl
