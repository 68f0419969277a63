-- ===== src/Valws/WindowSet/Pages.antt =====
-- The pages of a window as a list with repetitions, and the number of distinct ones.
use mathlib.Core.List.{append-nil, append_assoc}
use c380_1code.Base.{
  ℕ, zero, suc, ◌+◌, ◌%◌, ◌≤◌, ◌≡◌, refl, List, [], ◌∷◌, ◌++◌, arith, ◌==◌, if◌then◌else◌, length,
  ull_mod,
}
use c380_1code.Valws.Common.{MemRef}

-- how often a page occurs
unfoldable pub count : ℕ → List ℕ → ℕ
count j [] = 0
count j (x ∷ xs) = (if j == x then 1 else 0) + count j xs

-- how many different pages occur
unfoldable pub distinct : List ℕ → ℕ
distinct [] = 0
distinct (x ∷ xs) = (if count x xs == 0 then 1 else 0) + distinct xs

pub count-append : (j : ℕ) (xs ys : List ℕ) → count j (xs ++ ys) ≡ count j xs + count j ys
unfolding count
count-append j [] ys = omega arith
count-append j (x ∷ xs) ys = omega (arith, count-append j xs ys)

pub count-middle : (j x : ℕ) (xs ys : List ℕ) → count j (xs ++ x ∷ ys) ≡ count j (x ∷ (xs ++ ys))
unfolding count
count-middle j x xs ys = omega (arith, count-append j xs (x ∷ ys), count-append j xs ys)

pub distinct-middle : (x : ℕ) (xs ys : List ℕ) → distinct (xs ++ x ∷ ys) ≡ distinct (x ∷ (xs ++ ys))
unfolding distinct count
distinct-middle x [] ys = refl
distinct-middle x (a ∷ xs) ys = ground (arith, distinct-middle x xs ys, count-middle a x xs ys)

pub count-le-length : (j : ℕ) (xs : List ℕ) → count j xs ≤ length xs
unfolding count
count-le-length j [] = omega arith
count-le-length j (x ∷ xs) = ground (arith, count-le-length j xs)

pub distinct-le-length : (xs : List ℕ) → distinct xs ≤ length xs
unfolding distinct
distinct-le-length [] = omega arith
distinct-le-length (x ∷ xs) = ground (arith, distinct-le-length xs)

-- the pages from the `i`-th on of a reference, as the loops visit them
unfoldable pub page_list : ℕ → (address i : ℕ) → List ℕ
page_list zero address i = []
page_list (suc rounds) address i = ((address + i) % ull_mod) ∷ page_list rounds address (i + 1)

pub length-page_list : (rounds address i : ℕ) → length (page_list rounds address i) ≡ rounds
unfolding page_list
length-page_list zero address i = refl
length-page_list (suc rounds) address i = omega (arith, length-page_list rounds address (i + 1))

unfoldable pub pages_of : MemRef → List ℕ
unfolding page_list
pages_of r = page_list r.page_count r.address 0

pub length-pages_of : (r : MemRef) → length (pages_of r) ≡ r.page_count
unfolding pages_of
length-pages_of r = length-page_list r.page_count r.address 0

-- the pages of a window
unfoldable pub all_pages : List MemRef → List ℕ
all_pages [] = []
all_pages (r ∷ rs) = pages_of r ++ all_pages rs

-- a window without its oldest reference
unfoldable pub drop_last : List MemRef → List MemRef
drop_last [] = []
drop_last (r ∷ []) = []
drop_last (r ∷ s ∷ rs) = r ∷ drop_last (s ∷ rs)

pub drop_last-snoc : (rs : List MemRef) (r : MemRef) → drop_last (rs ++ r ∷ []) ≡ rs
unfolding drop_last
drop_last-snoc [] r = refl
drop_last-snoc (s ∷ []) r = refl
drop_last-snoc (s ∷ t ∷ rs) r = rw (drop_last-snoc (t ∷ rs) r)

pub all_pages-snoc :
    (rs : List MemRef) (r : MemRef) → all_pages (rs ++ r ∷ []) ≡ all_pages rs ++ pages_of r
unfolding all_pages
all_pages-snoc [] r = append-nil (pages_of r)
all_pages-snoc (s ∷ rs) r = rw (all_pages-snoc rs r, append_assoc)
