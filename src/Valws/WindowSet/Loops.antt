-- ===== src/Valws/WindowSet/Loops.antt =====
-- `windowset_put` and `windowset_delete`: the table follows the pages of the window.
use mathlib.Core.List.{append-nil}
use c380_1code.Base.{
  ℕ, zero, suc, ◌+◌, ◌%◌, ◌<◌, ◌≡◌, refl, ◌∙◌, some, List, ◌∷◌, ◌++◌, arith, length, length-append,
  ull_mod,
}
use c380_1code.Valws.Hashtable.{Table, put, delete, count_of}
use c380_1code.Valws.Hashtable.Drain.{IsMergeable}
use c380_1code.Valws.Hashtable.Root.{levels, IsRoot, references, put-Updates, delete-Updates}
use c380_1code.Valws.WindowSet.{put_pages, delete_pages}
use c380_1code.Valws.WindowSet.Pages.{
  count, distinct, count-middle, distinct-middle, count-le-length, distinct-le-length, page_list,
  length-page_list,
}

-- The table is well formed and holds the pages `xs`, each as often as it occurs.
pub record Tracks (t : Table) (xs : List ℕ) : Type 0 where
  pub valid : IsRoot t
  pub reads : (j : ℕ) → references t j ≡ count j xs
  pub counted : count_of t ≡ distinct xs

pub Tracks-middle :
    {t : Table} {x : ℕ} (xs ys : List ℕ) → Tracks t (xs ++ x ∷ ys) → Tracks t (x ∷ (xs ++ ys))
Tracks-middle {x} xs ys h = record {
  valid = h.valid;
  reads = λ j. h.reads j ∙ count-middle j x xs ys;
  counted = h.counted ∙ distinct-middle x xs ys;
}

pub put-Tracks :
    (t : Table) (x : ℕ) (xs : List ℕ)
    → x < ull_mod
    → length xs + 1 < ull_mod
    → Tracks t xs
    → (t' : Table) × (put levels t x ≡ some t') × Tracks t' (x ∷ xs)
unfolding count distinct
put-Tracks t x xs small room h =
    let (t', run, valid', u) =
      put-Updates t x h.valid small (omega (arith, h.reads x, count-le-length x xs))
        (omega (arith, h.counted, distinct-le-length xs)) in
    (
      t',
      run,
      record {
        valid = valid';
        reads = λ j. ground (arith, u.reads j, h.reads j, h.reads x);
        counted = ground (arith, u.counted, h.counted, h.reads x);
      },
    )

pub delete-Tracks :
    (t : Table) (x : ℕ) (xs : List ℕ)
    → x < ull_mod
    → length xs + 1 < ull_mod
    → IsMergeable t
    → Tracks t (x ∷ xs)
    → (t' : Table) × (delete levels t x ≡ some t') × IsMergeable t' × Tracks t' xs
unfolding count distinct
delete-Tracks t x xs small room mergeable h =
    let (t', run, valid', mergeable', u) =
      delete-Updates t x h.valid mergeable small
        (omega (arith, h.counted, distinct-le-length (x ∷ xs))) in
    (
      t',
      run,
      mergeable',
      record {
        valid = valid';
        reads = λ j. ground (arith, u.reads j, h.reads j, h.reads x);
        counted = ground (arith, u.counted, h.counted, h.reads x);
      },
    )

pub put_pages-Tracks :
    (rounds address i : ℕ) (t : Table) (xs : List ℕ)
    → length xs + rounds < ull_mod
    → Tracks t xs
    → (t' : Table) × (put_pages rounds address i t ≡ some t')
      × Tracks t' (page_list rounds address i ++ xs)
unfolding put_pages page_list
put_pages-Tracks zero address i t xs room h = (t, refl, h)
put_pages-Tracks (suc rounds) address i t xs room h =
    let x = (address + i) % ull_mod in
    let (t₁, run, h₁) = put-Tracks t x xs (omega arith) (omega arith) h in
    let (t', rest, h') = put_pages-Tracks rounds address (i + 1) t₁ (x ∷ xs) (omega arith) h₁ in
    (t', rw run rest, Tracks-middle (page_list rounds address (i + 1)) xs h')

pub delete_pages-Tracks :
    (rounds address i : ℕ) (t : Table) (xs : List ℕ)
    → length xs + rounds < ull_mod
    → IsMergeable t
    → Tracks t (xs ++ page_list rounds address i)
    → (t' : Table) × (delete_pages rounds address i t ≡ some t') × Tracks t' xs
unfolding delete_pages page_list
delete_pages-Tracks zero address i t xs room mergeable h = (t, refl, rw append-nil at h)
delete_pages-Tracks (suc rounds) address i t xs room mergeable h =
    let x = (address + i) % ull_mod in
    let ys = page_list rounds address (i + 1) in
    let size = length-append xs ys in
    let (t₁, run, mergeable₁, h₁) =
      delete-Tracks t x (xs ++ ys) (omega arith)
        (omega (arith, length-page_list rounds address (i + 1))) mergeable
        (Tracks-middle xs ys h) in
    let (t', rest, h') =
      delete_pages-Tracks rounds address (i + 1) t₁ xs (omega arith) mergeable₁ h₁ in
    (t', rw run rest, h')
