-- ===== src/Valws/WindowSet/Levels.antt =====
-- The loops and the eviction keep the hash table of a window set shallow.
use c380_1code.Base.{
  ℕ, zero, suc, ◌+◌, ◌%◌, ◌<◌, ◌≡◌, refl, sym, ◌∙◌, some, List, ◌∷◌, ◌++◌, arith, length,
  length-append, ull_mod,
}
use c380_1code.Valws.Hashtable.{Table, put, delete}
use c380_1code.Valws.Hashtable.Contents.{count_of-size}
use c380_1code.Valws.Hashtable.Shallow.{IsSparse, IsShallow, IsShallow-IsMergeable, of_result}
use c380_1code.Valws.Hashtable.Sparse.{put-Shallow}
use c380_1code.Valws.Hashtable.Shrink.{delete-Shallow}
use c380_1code.Valws.Hashtable.Root.{levels, references}
use c380_1code.Valws.WindowSet.{put_pages, delete_pages}
use c380_1code.Valws.WindowSet.Pages.{
  count, count-append, count-middle, count-le-length, distinct-le-length, page_list,
  length-page_list,
}
use c380_1code.Valws.WindowSet.Loops.{Tracks, Tracks-middle, put-Tracks, delete-Tracks}

put-page :
    (g : ℕ → ℕ) (t t' : Table) (x : ℕ) (xs : List ℕ)
    → x < ull_mod
    → length xs + 1 < ull_mod
    → Tracks t xs
    → IsShallow t
    → IsSparse g
    → ((j : ℕ) → 0 < count j (x ∷ xs) → 0 < g j)
    → put levels t x ≡ some t'
    → IsShallow t'
unfolding references count
put-page g t t' x xs small room h shallow sparse below run =
    put-Shallow g t t' x h.valid shallow small
      (omega (arith, h.reads x, count-le-length x xs, room))
      (omega (arith, h.counted, distinct-le-length xs, count_of-size 0 0 t h.valid, room)) sparse
      (λ j p. below j (ground (arith, p, h.reads j, h.reads x))) run

-- the steps of the loops
put_pages-zero : (address i : ℕ) (t : Table) → put_pages zero address i t ≡ some t
unfolding put_pages
put_pages-zero address i t = refl

delete_pages-zero : (address i : ℕ) (t : Table) → delete_pages zero address i t ≡ some t
unfolding delete_pages
delete_pages-zero address i t = refl

put_pages-step :
    (rounds address i : ℕ) (t t₁ : Table)
    → put levels t ((address + i) % ull_mod) ≡ some t₁
    → put_pages (suc rounds) address i t ≡ put_pages rounds address (i + 1) t₁
unfolding put_pages
put_pages-step rounds address i t t₁ run = rw (run, put_pages) refl

delete_pages-step :
    (rounds address i : ℕ) (t t₁ : Table)
    → delete levels t ((address + i) % ull_mod) ≡ some t₁
    → delete_pages (suc rounds) address i t ≡ delete_pages rounds address (i + 1) t₁
unfolding delete_pages
delete_pages-step rounds address i t t₁ run = rw (run, delete_pages) refl

pub put_pages-Shallow :
    (g : ℕ → ℕ) (rounds address i : ℕ) (t t' : Table) (xs : List ℕ)
    → length xs + rounds < ull_mod
    → Tracks t xs
    → IsShallow t
    → IsSparse g
    → ((j : ℕ) → 0 < count j (page_list rounds address i ++ xs) → 0 < g j)
    → put_pages rounds address i t ≡ some t'
    → IsShallow t'
unfolding page_list
put_pages-Shallow g zero address i t t' xs room h shallow sparse below run =
    of_result IsShallow (put_pages-zero address i t) run shallow
put_pages-Shallow g (suc rounds) address i t t' xs room h shallow sparse below run =
    let x = (address + i) % ull_mod in
    let ys = page_list rounds address (i + 1) in
    let (t₁, run₁, h₁) = put-Tracks t x xs (omega arith) (omega (arith, room)) h in
    let later : (j : ℕ) → 0 < count j (ys ++ x ∷ xs) → 0 < g j =
      λ j p. below j (omega (arith, count-middle j x ys xs, p)) in
    put_pages-Shallow g rounds address (i + 1) t₁ t' (x ∷ xs) (omega (arith, room)) h₁
      (put-page g t t₁ x xs (omega arith) (omega (arith, room)) h shallow sparse
        (λ j p. later j (omega (arith, count-append j ys (x ∷ xs), p))) run₁)
      sparse later (sym (put_pages-step rounds address i t t₁ run₁) ∙ run)

pub delete_pages-Shallow :
    (rounds address i : ℕ) (t t' : Table) (xs : List ℕ)
    → length xs + rounds < ull_mod
    → IsShallow t
    → Tracks t (xs ++ page_list rounds address i)
    → delete_pages rounds address i t ≡ some t'
    → IsShallow t'
unfolding page_list references
delete_pages-Shallow zero address i t t' xs room shallow h run =
    of_result IsShallow (delete_pages-zero address i t) run shallow
delete_pages-Shallow (suc rounds) address i t t' xs room shallow h run =
    let x = (address + i) % ull_mod in
    let ys = page_list rounds address (i + 1) in
    let size = length-append xs ys in
    let few : length (xs ++ ys) + 1 < ull_mod =
      omega (arith, size, length-page_list rounds address (i + 1), room) in
    let all = Tracks-middle xs ys h in
    let (t₁, run₁, _, h₁) =
      delete-Tracks t x (xs ++ ys) (omega arith) few (IsShallow-IsMergeable t shallow) all in
    delete_pages-Shallow rounds address (i + 1) t₁ t' xs (omega (arith, room))
      (delete-Shallow t t₁ x h.valid shallow (omega arith)
        (omega (
          arith,
          all.counted,
          distinct-le-length (x ∷ (xs ++ ys)),
          count_of-size 0 0 t h.valid,
          few,
        ))
        run₁)
      h₁ (sym (delete_pages-step rounds address i t t₁ run₁) ∙ run)
