-- ===== src/Valws/WindowSet/Insert.antt =====
-- `window_set_insert`: the window slides, and its size is the number of distinct pages in it.
use mathlib.Core.Path.{subst}
use c380_1code.Base.{
  ℕ, suc, ◌+◌, ◌<◌, ◌≡◌, refl, sym, ap, ◌∙◌, inl, inr, true, Option, some, List, [], ◌∷◌, ◌++◌,
  arith, ltb, if◌then◌else◌, length, length-append, Bool-cases, ull_mod,
}
use c380_1code.Valws.Common.{MemRef}
use c380_1code.Valws.Hashtable.{Table}
use c380_1code.Valws.Hashtable.Drain.{IsMergeable}
use c380_1code.Valws.Queue.Chain.{Cells, snoc-cases}
use c380_1code.Valws.Queue.Refinement.{Holds, values, enqueue-Holds, dequeue-Holds}
use c380_1code.Valws.WindowSet.{
  WindowSet, Allocator, windowset_put, windowset_delete, to_mem_ref, shifted_ref, evict,
  window_set_insert, get_window_set_size,
}
use c380_1code.Valws.WindowSet.Pages.{
  distinct, pages_of, all_pages, all_pages-snoc, drop_last, drop_last-snoc, length-pages_of,
}
use c380_1code.Valws.WindowSet.Loops.{Tracks, put_pages-Tracks, delete_pages-Tracks}

-- The window holds the references `refs`, the newest first, and the table their pages.
pub record IsValid (w : WindowSet) (refs : List MemRef) : Type 0 where
  pub cells : Cells
  pub stands : values cells ≡ refs
  pub holds : Holds w.heap w.queue cells
  pub tracks : Tracks w.hashtable (all_pages refs)
  pub shifts : w.page_exponent < 64

-- the window after an insertion
unfoldable pub slide : ℕ → List MemRef → List MemRef
slide window_size refs = if ltb window_size (length refs) then drop_last refs else refs

pub length-values : (cs : Cells) → length (values cs) ≡ length cs
length-values [] = refl
length-values ((p, v) ∷ cs) = ap suc (length-values cs)

pub values-snoc :
    (cs : Cells) (p : ℕ) (v : MemRef) → values (cs ++ (p, v) ∷ []) ≡ values cs ++ v ∷ []
values-snoc [] p v = refl
values-snoc ((q, w) ∷ cs) p v = rw (values-snoc cs p v)

-- the state after a successful eviction or insertion
abbrev pub Slides : WindowSet → List MemRef → Option WindowSet → Type 0
Slides w refs r =
    (w' : WindowSet) × (r ≡ some w')
    × IsValid w' refs
    × (w'.page_exponent ≡ w.page_exponent)
    × (w'.window_size ≡ w.window_size)

evict-last :
    (w : WindowSet) (ds : Cells) (p : ℕ) (v : MemRef)
    → ltb w.window_size w.queue.size ≡ true
    → length ds + 1 < ull_mod
    → length (all_pages (values ds)) + v.page_count < ull_mod
    → IsMergeable w.hashtable
    → Holds w.heap w.queue (ds ++ (p, v) ∷ [])
    → Tracks w.hashtable (all_pages (values ds ++ v ∷ []))
    → w.page_exponent < 64
    → Slides w (values ds) (evict w)
unfolding evict windowset_delete pages_of
evict-last w ds p v long few room mergeable holds tracks shifts =
    let (heap, queue, run, holds', freed) = dequeue-Holds w.heap w.queue p v ds few holds in
    let (t, run', tracks') =
      delete_pages-Tracks v.page_count v.address 0 w.hashtable (all_pages (values ds)) room
        mergeable (rw all_pages-snoc at tracks) in
    (
      record w { heap = heap; queue = queue; hashtable = t },
      rw (long, run, run') refl,
      record { cells = ds; stands = refl; holds = holds'; tracks = tracks'; shifts = shifts },
      refl,
      refl,
    )

evict-Slides :
    (w : WindowSet) (refs : List MemRef)
    → IsMergeable w.hashtable
    → length refs < ull_mod
    → length (all_pages refs) < ull_mod
    → IsValid w refs
    → Slides w (slide w.window_size refs) (evict w)
unfolding slide evict
evict-Slides w refs mergeable few room h =
    let size : w.queue.size ≡ length refs =
      h.holds.counted ∙ (sym (length-values h.cells) ∙ ap length h.stands) in
    elim (Bool-cases (ltb w.window_size (length refs))) [
      | inr short ↦ (w, rw (size, evict, short) refl, rw short h, refl, refl)
      | inl long ↦ elim (snoc-cases h.cells) [
        | inl e ↦
            let none_left : length refs ≡ 0 = ap length (sym h.stands ∙ ap values e) in
            absurd (ground arith)
        | inr (ds, p, v, e) ↦
            let list : refs ≡ values ds ++ v ∷ [] =
              sym h.stands ∙ (ap values e ∙ values-snoc ds p v) in
            let long' : ltb w.window_size w.queue.size ≡ true = rw size long in
            let count_refs = length-append (values ds) (v ∷ []) in
            let pages = ap length (ap all_pages list ∙ all_pages-snoc (values ds) v) in
            let kept = drop_last-snoc (values ds) v in
            rw (long, list, kept)
              (evict-last w ds p v long' (omega (arith, ap length list, length-values ds))
                (omega (
                  arith,
                  pages,
                  length-append (all_pages (values ds)) (pages_of v),
                  length-pages_of v,
                ))
                mergeable (rw e at h.holds)
                (subst (λ rs. Tracks w.hashtable (all_pages rs)) list h.tracks) h.shifts)
      ]
    ]

-- On a valid window set, if the numbers of its references and of their pages stay below 2 ^ 64 and
-- every table two or more levels down has at least six pairs once the new pages are in,
-- `window_set_insert` returns a valid window set again. Its window is the old one with the new
-- reference in front, without the last reference if it had become longer than the window size.
pub window_set_insert-Slides :
    (system : Allocator) (w : WindowSet) (refs : List MemRef) (address page_size : ℕ)
    → IsValid w refs
    → length refs + 1 < ull_mod
    → length (all_pages (to_mem_ref w.page_exponent address page_size ∷ refs)) < ull_mod
    → ((t : Table)
        → windowset_put w.hashtable (to_mem_ref w.page_exponent address page_size) ≡ some t
        → IsMergeable t)
    → Slides w
        (slide w.window_size (to_mem_ref w.page_exponent address page_size ∷ refs))
        (window_set_insert system w address page_size)
unfolding window_set_insert shifted_ref windowset_put all_pages pages_of
window_set_insert-Slides system w refs address page_size h few room mergeable =
    let r = to_mem_ref w.page_exponent address page_size in
    let fresh = system.malloc w.heap in
    let size : length refs ≡ length h.cells = sym (ap length h.stands) ∙ length-values h.cells in
    let (heap, queue, run, holds) =
      enqueue-Holds fresh w.heap w.queue r h.cells (system.not_null w.heap) (system.unused w.heap)
        (omega arith) h.holds in
    let (t, run', tracks) =
      put_pages-Tracks r.page_count r.address 0 w.hashtable (all_pages refs)
        (omega (arith, length-append (pages_of r) (all_pages refs), length-pages_of r)) h.tracks in
    let small : ltb w.page_exponent 64 ≡ true = ground (arith, h.shifts) in
    rw (small, run, run')
      (evict-Slides (record w { heap = heap; queue = queue; hashtable = t }) (r ∷ refs)
        (mergeable t run') (omega arith) room
        (record {
          cells = (fresh, r) ∷ h.cells;
          stands = ap (λ rs. r ∷ rs) h.stands;
          holds = holds;
          tracks = tracks;
          shifts = h.shifts;
        }))

-- The window set size is the number of distinct pages that the window's references touch.
pub get_window_set_size-distinct :
    (w : WindowSet) (refs : List MemRef)
    → IsValid w refs
    → get_window_set_size w ≡ distinct (all_pages refs)
unfolding get_window_set_size
get_window_set_size-distinct w refs h = h.tracks.counted
