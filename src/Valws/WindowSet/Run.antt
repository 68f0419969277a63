-- ===== src/Valws/WindowSet/Run.antt =====
-- Whole runs: initialisation, and the accesses of a stream one after the other.
use mathlib.Core.Path.{subst}
use c380_1code.Valws.WindowSet.{shifted_ref}
use c380_1code.Base.{
  ◌%◌, ◌^◌, true, ℕ, ◌+◌, ◌-◌, ◌≤◌, ◌<◌, ◌≡◌, refl, sym, ap, ◌∙◌, Option, some, List, [], ◌∷◌,
  arith, false, ltb, length, length-append, ull_mod, ◌>>=◌,
}
use c380_1code.Valws.Common.{MemRef, get_power_of_two}
use c380_1code.Valws.Hashtable.Root.{new_hashtable_lem}
use c380_1code.Valws.Queue.Memory.{Heap}
use c380_1code.Valws.Queue.Refinement.{new_queue-Holds, enqueue-Holds}
use c380_1code.Valws.WindowSet.{
  WindowSet, Allocator, initialize_window_set, windowset_put, to_mem_ref, window_set_insert,
  get_window_set_size,
}
use c380_1code.Valws.WindowSet.Pages.{distinct, count, pages_of, all_pages, length-pages_of}
use c380_1code.Valws.WindowSet.Loops.{put_pages-Tracks}
use c380_1code.Valws.WindowSet.Insert.{IsValid, Slides, length-values, get_window_set_size-distinct}

-- For a page size that has a power of two, which all but 0 have, `initialize_window_set` returns a valid window set without
-- references, with that exponent and the given window size.
pub initialize_window_set-IsValid :
    (heap : Heap) (page_size window_size exponent : ℕ)
    → get_power_of_two page_size ≡ some exponent
    → exponent < 64
    → (w : WindowSet) × (initialize_window_set heap page_size window_size ≡ some w)
      × IsValid w []
      × (w.page_exponent ≡ exponent)
      × (w.window_size ≡ window_size)
unfolding initialize_window_set all_pages count distinct
initialize_window_set-IsValid heap page_size window_size exponent e small =
    let (t, run, valid, mergeable, counted, reads) = new_hashtable_lem in
    let same : exponent % 2 ^ 32 ≡ exponent = omega (arith, small) in
    (
      _,
      rw (e, run) refl,
      record {
        cells = [];
        stands = refl;
        holds = new_queue-Holds heap;
        tracks = record { valid = valid; reads = reads; counted = counted };
        shifts = omega (arith, same, small);
      },
      same,
      refl,
    )

-- On a valid window set that has fewer references than the window size, if the numbers of its
-- references and of their pages stay below 2 ^ 64, `window_set_insert` returns a valid window set,
-- whose window is the old one with the new reference in front, whatever the table looks like.
pub window_set_insert-fills :
    (system : Allocator) (w : WindowSet) (refs : List MemRef) (address page_size : ℕ)
    → IsValid w refs
    → length refs < w.window_size
    → length refs + 1 < ull_mod
    → length (all_pages (to_mem_ref w.page_exponent address page_size ∷ refs)) < ull_mod
    → Slides w
        (to_mem_ref w.page_exponent address page_size ∷ refs)
        (window_set_insert system w address page_size)
unfolding window_set_insert shifted_ref windowset_put all_pages pages_of
window_set_insert-fills system w refs address page_size h short few room =
    let r = to_mem_ref w.page_exponent address page_size in
    let fresh = system.malloc w.heap in
    let size : length refs ≡ length h.cells = sym (ap length h.stands) ∙ length-values h.cells in
    let (heap, queue, run, holds) =
      enqueue-Holds fresh w.heap w.queue r h.cells (system.not_null w.heap) (system.unused w.heap)
        (omega arith) h.holds in
    let (t, run', tracks) =
      put_pages-Tracks r.page_count r.address 0 w.hashtable (all_pages refs)
        (omega (arith, length-append (pages_of r) (all_pages refs), length-pages_of r)) h.tracks in
    let small : ltb w.page_exponent 64 ≡ true = ground (arith, h.shifts) in
    let stays : ltb w.window_size queue.size ≡ false = ground (arith, holds.counted) in
    (
      record w { heap = heap; queue = queue; hashtable = t },
      rw (small, run, run', stays) refl,
      record {
        cells = (fresh, r) ∷ h.cells;
        stands = ap (λ rs. r ∷ rs) h.stands;
        holds = holds;
        tracks = tracks;
        shifts = h.shifts;
      },
      refl,
      refl,
    )

-- the memory accesses of a stream, each an address and a size
abbrev pub Access : Type 0
Access = ℕ × ℕ

unfoldable pub insert_all : Allocator → WindowSet → List Access → Option WindowSet
insert_all system w [] = some w
insert_all system w ((address, size) ∷ accesses) =
    window_set_insert system w address size >>= λ w'. insert_all system w' accesses

-- the references that a stream leaves in front of `refs`
unfoldable pub references_of : ℕ → List Access → List MemRef → List MemRef
references_of exponent [] refs = refs
references_of exponent ((address, size) ∷ accesses) refs =
    references_of exponent accesses (to_mem_ref exponent address size ∷ refs)

pub pages-grow :
    (exponent : ℕ) (accesses : List Access) (refs : List MemRef)
    → length (all_pages refs) ≤ length (all_pages (references_of exponent accesses refs))
unfolding references_of all_pages
pages-grow exponent [] refs = omega arith
pages-grow exponent ((address, size) ∷ accesses) refs =
    let r = to_mem_ref exponent address size in
    omega
      (arith, pages-grow exponent accesses (r ∷ refs), length-append (pages_of r) (all_pages refs))

insert_all-fills :
    (system : Allocator) (w : WindowSet) (accesses : List Access) (refs : List MemRef)
    (exponent window_size : ℕ)
    → IsValid w refs
    → w.page_exponent ≡ exponent
    → w.window_size ≡ window_size
    → length refs + length accesses ≤ window_size
    → window_size < ull_mod - 1
    → length (all_pages (references_of exponent accesses refs)) < ull_mod
    → (w' : WindowSet) × (insert_all system w accesses ≡ some w')
      × IsValid w' (references_of exponent accesses refs)
unfolding insert_all references_of
insert_all-fills system w [] refs exponent window_size h e s short few room = (w, refl, h)
insert_all-fills system w ((address, size) ∷ accesses) refs exponent window_size h e s short few
      room =
    let r = to_mem_ref exponent address size in
    let grow = pages-grow exponent accesses (r ∷ refs) in
    let (w₁, run, h₁, e₁, s₁) =
      window_set_insert-fills system w refs address size h (omega arith) (omega arith)
        (rw e (omega (arith, room))) in
    let (w', rest, h') =
      insert_all-fills system w₁ accesses (r ∷ refs) exponent window_size
        (subst (λ x. IsValid w₁ (to_mem_ref x address size ∷ refs)) e h₁) (e₁ ∙ e) (s₁ ∙ s)
        (omega arith) few room in
    (w', rw run rest, h')

-- For a page size of 64 bits but 0, which has a power of two, and for a stream of at most as many accesses as the
-- window size, which is below 2 ^ 64 - 1, with fewer than 2 ^ 64 pages in all: initialisation and
-- all the insertions return, and the window set size after them is the number of distinct pages of
-- the references.
pub window_size-distinct :
    (system : Allocator) (heap : Heap) (page_size window_size exponent : ℕ) (accesses : List Access)
    → get_power_of_two page_size ≡ some exponent
    → exponent < 64
    → length accesses ≤ window_size
    → window_size < ull_mod - 1
    → length (all_pages (references_of exponent accesses [])) < ull_mod
    → (initialize_window_set heap page_size window_size >>= λ w.
        insert_all system w accesses >>= λ w'. some (get_window_set_size w'))
      ≡ some (distinct (all_pages (references_of exponent accesses [])))
window_size-distinct system heap page_size window_size exponent accesses e small short few room =
    let (w, run, h, at, size) =
      initialize_window_set-IsValid heap page_size window_size exponent e small in
    let (w', run', h') =
      insert_all-fills system w accesses [] exponent window_size h at size (omega arith) few room in
    rw (run, run', get_window_set_size-distinct w' (references_of exponent accesses []) h') refl
