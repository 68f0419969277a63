-- ===== src/Valws/Hashtable/Merge.antt =====
-- `merge`: the lists of a small table without inner tables go into one list, which holds the same.
use native.Mathlib.Decide.{ℕ_discrete}
use c380_1code.Base.{
  ℕ, suc, ◌+◌, ◌*◌, ◌/◌, ◌%◌, ◌^◌, ◌≤◌, ◌<◌, ◌≡◌, ◌≢◌, refl, sym, ap, ◌∙◌, inl, inr, true, some, [],
  arith, ltb, length, total, total-only, total_congr, sum_from, sum_from-total, le-total,
  Bool-cases,
}
use c380_1code.Valws.Common.{merge_size}
use c380_1code.Valws.LinkedList.{LinkedList}
use c380_1code.Valws.LinkedList.Contents.{
  value_of, occ, present, present-le, IsProper, value_of-eq-zero,
}
use c380_1code.Valws.Hashtable.{Table, null, table, bucket_index, merge}
use c380_1code.Valws.Hashtable.Contents.{
  value_in, size_in, IsList, IsBucket, IsTable, Same, IsTable-IsBucket,
}
use c380_1code.Valws.Hashtable.Insert.{Table-cases, is_null, is_table}
use c380_1code.Valws.Hashtable.Place.{span, index_of-residue, residue-pred}
use c380_1code.Valws.Hashtable.Drain.{
  Gathered, merge_lists-Gathered, IsBulky, IsThick, empty-IsList,
}

module _ {level residue count at shifts : ℕ} (tables : ℕ → Table) (lists : ℕ → LinkedList)
    (valid : IsTable level residue (table count at shifts tables lists)) where
  -- the list of a bucket is well formed, also beside a table, where it is empty
  any-IsList : (i : ℕ) → i < 16 → IsList (suc level) (residue + span level * i) (lists i)
  any-IsList i h = elim (Table-cases (tables i)) [
    | is_null e ↦ rw e at (valid.2 i h)
    | is_table c v s ts ls e ↦
        let b = rw e at (valid.2 i h) in empty-IsList (lists i) b.0 b.1.within
  ]

  -- a key occurs in the list of its own bucket only
  occ-else : (j i : ℕ) → i < 16 → (i ≡ bucket_index j shifts → ⊥) → occ j (lists i).nodes ≡ 0
  occ-else j i h ne = elim (ℕ_discrete (occ j (lists i).nodes) 0) [
    | yes e ↦ e
    | no some_pair ↦
        let here = ((any-IsList i h).placed j (omega arith)).1 in
        let index = index_of-residue j level residue i valid.1.residue_lt here in
        absurd (ne (sym index ∙ ap (λ (s : ℕ). j / 2 ^ s % 16) (sym valid.1.shifted)))
  ]

  total-occ :
      (j : ℕ) → total 16 (λ m. occ j (lists m).nodes) ≡ occ j (lists (bucket_index j shifts)).nodes
  total-occ j =
      total-only 16 (bucket_index j shifts) (λ m. occ j (lists m).nodes) (omega arith)
        (λ i h ne. occ-else j i h ne)

  total-value :
      (j : ℕ)
      → total 16 (λ m. value_of j (lists m).nodes)
        ≡ value_of j (lists (bucket_index j shifts)).nodes
  total-value j =
      total-only 16 (bucket_index j shifts) (λ m. value_of j (lists m).nodes) (omega arith)
        (λ i h ne. value_of-eq-zero j (lists i).nodes (occ-else j i h ne))

  own_list : (j : ℕ) → IsProper (lists (bucket_index j shifts)).nodes
  own_list j = (any-IsList (bucket_index j shifts) (omega arith)).proper

  once : (j : ℕ) → sum_from 16 0 (λ m. occ j (lists m).nodes) + 0 ≤ 1
  once j = omega (
    arith,
    sum_from-total 16 (λ m. occ j (lists m).nodes),
    total-occ j,
    (own_list j).exact j,
    present-le (value_of j (lists (bucket_index j shifts)).nodes),
  )

  module _ (l l' : LinkedList) (empty : l.nodes ≡ []) (g : Gathered 16 0 lists l l') where
    gathered-value :
        (j : ℕ) → value_of j l'.nodes ≡ value_of j (lists (bucket_index j shifts)).nodes
    unfolding value_of
    gathered-value j = omega (
      arith,
      g.reads j,
      sum_from-total 16 (λ m. value_of j (lists m).nodes),
      total-value j,
      ap (value_of j) empty,
    )

    gathered-occ : (j : ℕ) → occ j l'.nodes ≡ occ j (lists (bucket_index j shifts)).nodes
    unfolding occ
    gathered-occ j = omega (
      arith,
      g.occurs j,
      sum_from-total 16 (λ m. occ j (lists m).nodes),
      total-occ j,
      ap (occ j) empty,
    )

    gathered-IsList : IsList level residue l'
    gathered-IsList = record {
      proper = record {
        exact =
            λ j. omega (arith, gathered-occ j, (own_list j).exact j, ap present (gathered-value j));
        small = λ j. rw (gathered-value j) ((own_list j).small j);
      };
      placed = λ j h.
          let i = bucket_index j shifts in
          let here = (any-IsList i (omega arith)).placed j (rw (gathered-occ j) at h) in
          (here.0, residue-pred j level residue i valid.1.residue_lt here.1);
      honest = λ e. absurd (omega (arith, valid.1.within));
    }

    gathered-Same :
        ((i : ℕ) → i < 16 → tables i ≡ null) → Same (table count at shifts tables lists) l null l'
    unfolding value_in size_in
    gathered-Same flat = record {
      reads = λ j. rw (flat (bucket_index j shifts) (omega arith)) (gathered-value j);
      sized = omega (
        arith,
        g.sized,
        sum_from-total 16 (λ m. length (lists m).nodes),
        total_congr 16 (λ m. size_in (tables m) (lists m)) (λ m. length (lists m).nodes)
            (λ i h. ap (λ t. size_in t (lists i)) (flat i h)),
        ap length empty,
      );
    }

-- below a small table there is no bulky one
thick-flat :
    {level residue count at shifts : ℕ} (tables : ℕ → Table) (lists : ℕ → LinkedList)
    → IsTable level residue (table count at shifts tables lists)
    → IsThick (table count at shifts tables lists)
    → count < merge_size
    → (i : ℕ) → i < 16
    → tables i ≡ null
unfolding size_in
thick-flat {level} {residue} tables lists valid thick few i h = elim (Table-cases (tables i)) [
  | is_null e ↦ e
  | is_table c v s ts ls e ↦
      let bulky : merge_size ≤ c = rw e at (thick i h).0 in
      let inner = rw e at (valid.2 i h) in
      let fits = le-total 16 i (λ j. size_in (tables j) (lists j)) h in
      absurd (omega (arith, inner.1.counted, valid.1.counted, size_of-table e))
]
  where
    size_of-table :
        {c v s : ℕ} {ts : ℕ → Table} {ls : ℕ → LinkedList}
        → tables i ≡ table c v s ts ls
        → size_in (tables i) (lists i) ≡ total 16 (λ j. size_in (ts j) (ls j))
    size_of-table e = rw e refl

-- `merge` leaves a bucket that holds what the table held
pub merge-Same :
    (level residue : ℕ) (inner : Table) (l : LinkedList)
    → IsTable level residue inner
    → IsThick inner
    → l.nodes ≡ []
    → (t' : Table) × (l' : LinkedList) × (merge inner l ≡ some (t', l'))
      × IsBucket level residue t' l'
      × Same inner l t' l'
      × IsBulky t'
      × IsThick t'
unfolding merge occ
merge-Same level residue null l valid thick empty = absurd valid
merge-Same level residue (table count at shifts tables lists) l valid thick empty =
    elim (Bool-cases (ltb count merge_size)) [
      | inr many ↦ (
        table count at shifts tables lists,
        l,
        rw many,
        IsTable-IsBucket level residue (table count at shifts tables lists) l valid empty,
        record { reads = λ j. refl; sized = refl },
        ground arith,
        thick,
      )
      | inl few ↦
          let flat = thick-flat tables lists valid thick (ground arith) in
          let (l', run, g) =
            merge_lists-Gathered 16 0 lists l (λ j. rw empty (once tables lists valid j)) in
          (
            null,
            l',
            rw (few, run),
            gathered-IsList tables lists valid l l' empty g,
            gathered-Same tables lists valid l l' empty g flat,
            tt,
            tt,
          )
    ]

-- On a well-formed inner table with fewer than `merge_size` pairs and an empty list in its bucket,
-- `merge` returns a list in which every key whose bucket of the inner table was itself expanded has
-- no references: the pairs of the tables further down are lost.
pub merge-loses :
    (level residue count at shifts : ℕ) (tables : ℕ → Table) (lists : ℕ → LinkedList)
    (l : LinkedList)
    → IsTable level residue (table count at shifts tables lists)
    → l.nodes ≡ []
    → count < merge_size
    → (l' : LinkedList) × (merge (table count at shifts tables lists) l ≡ some (null, l'))
      × ((q : ℕ) → tables (bucket_index q shifts) ≢ null → value_in null l' q ≡ 0)
unfolding merge value_in occ
merge-loses level residue count at shifts tables lists l valid empty few =
    let few' : ltb count merge_size ≡ true = ground arith in
    let (l', run, g) =
      merge_lists-Gathered 16 0 lists l (λ j. rw empty (once tables lists valid j)) in
    (
      l',
      rw (few', run),
      λ q inner. rw (gathered-value tables lists valid l l' empty g q) (lost q inner),
    )
  where
    lost :
        (q : ℕ)
        → tables (bucket_index q shifts) ≢ null
        → value_of q (lists (bucket_index q shifts)).nodes ≡ 0
    lost q inner = elim (Table-cases (tables (bucket_index q shifts))) [
      | is_null e ↦ absurd (inner e)
      | is_table c v s ts ls e ↦
          let b = rw e at (valid.2 (bucket_index q shifts) (omega arith)) in
          rw b.0 (unfold value_of in refl)
    ]
