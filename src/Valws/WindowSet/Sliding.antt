-- ===== src/Valws/WindowSet/Sliding.antt =====
-- A window that slides over pages that are not crowded: every insertion keeps the window right.
use mathlib.Core.Path.{subst}
use c380_1code.Base.{
  ◌%◌, ◌^◌, ℕ, ◌+◌, ◌<◌, ◌≡◌, refl, sym, ap, ◌∙◌, true, false, inl, inr, Bool-cases, Option, some,
  List, [], ◌∷◌, ◌++◌, arith, ltb, length, length-append, ull_mod,
}
use c380_1code.Valws.Common.{MemRef, get_power_of_two}
use c380_1code.Valws.Hashtable.{Table, new_hashtable}
use c380_1code.Valws.Hashtable.Split.{new_table, new_hashtable_at-new}
use c380_1code.Valws.Hashtable.Shallow.{IsShallow, IsShallow-IsMergeable, of_result}
use c380_1code.Valws.Queue.{Queue, new_queue, enqueue, dequeue}
use c380_1code.Valws.Queue.Memory.{Heap}
use c380_1code.Valws.Queue.Chain.{Cells, snoc-cases}
use c380_1code.Valws.Queue.Refinement.{Holds, values, enqueue-Holds, dequeue-Holds}
use c380_1code.Valws.WindowSet.{
  WindowSet, Allocator, initialize_window_set, windowset_put, windowset_delete, to_mem_ref,
  shifted_ref, evict, window_set_insert,
}
use c380_1code.Valws.WindowSet.Pages.{count, pages_of, all_pages, all_pages-snoc, length-pages_of}
use c380_1code.Valws.WindowSet.Loops.{Tracks, put_pages-Tracks, delete_pages-Tracks}
use c380_1code.Valws.WindowSet.Insert.{
  IsValid, slide, length-values, values-snoc, window_set_insert-Slides,
}
use c380_1code.Valws.WindowSet.Run.{initialize_window_set-IsValid}
use c380_1code.Valws.WindowSet.Crowd.{IsUncrowded, IsUncrowded-IsSparse}
use c380_1code.Valws.WindowSet.Levels.{put_pages-Shallow, delete_pages-Shallow}

abbrev HasShallow : WindowSet → Type 0
HasShallow w = IsShallow w.hashtable

evict-short : (w : WindowSet) → ltb w.window_size w.queue.size ≡ false → evict w ≡ some w
unfolding evict
evict-short w short = rw (short, evict) refl

evict-long :
    (w : WindowSet) (r : MemRef) (heap : Heap) (queue : Queue) (t : Table)
    → ltb w.window_size w.queue.size ≡ true
    → dequeue w.heap w.queue ≡ some (r, heap, queue)
    → windowset_delete w.hashtable r ≡ some t
    → evict w ≡ some (record w { heap = heap; queue = queue; hashtable = t })
unfolding evict
evict-long w r heap queue t long run run' = rw (long, run, run', evict) refl

-- the eviction of the last reference
evict_last-Shallow :
    (w w' : WindowSet) (ds : Cells) (p : ℕ) (v : MemRef)
    → ltb w.window_size w.queue.size ≡ true
    → length ds + 1 < ull_mod
    → length (all_pages (values ds)) + v.page_count < ull_mod
    → IsShallow w.hashtable
    → Holds w.heap w.queue (ds ++ (p, v) ∷ [])
    → Tracks w.hashtable (all_pages (values ds ++ v ∷ []))
    → evict w ≡ some w'
    → IsShallow w'.hashtable
unfolding windowset_delete pages_of
evict_last-Shallow w w' ds p v long few room shallow holds tracks run =
    let (heap, queue, run₁, _, _) = dequeue-Holds w.heap w.queue p v ds few holds in
    let split = rw all_pages-snoc at tracks in
    let (t, run₂, _) =
      delete_pages-Tracks v.page_count v.address 0 w.hashtable (all_pages (values ds)) room
        (IsShallow-IsMergeable w.hashtable shallow) split in
    of_result HasShallow (evict-long w v heap queue t long run₁ run₂) run (
      delete_pages-Shallow v.page_count v.address 0 w.hashtable t (all_pages (values ds)) room
        shallow split run₂)

evict-Shallow :
    (w w' : WindowSet) (refs : List MemRef)
    → IsShallow w.hashtable
    → length refs < ull_mod
    → length (all_pages refs) < ull_mod
    → IsValid w refs
    → evict w ≡ some w'
    → IsShallow w'.hashtable
evict-Shallow w w' refs shallow few room h run =
    elim (Bool-cases (ltb w.window_size w.queue.size)) [
      | inr short ↦ of_result HasShallow (evict-short w short) run shallow
      | inl long ↦ elim (snoc-cases h.cells) [
        | inl e ↦
            let none_left : w.queue.size ≡ 0 = h.holds.counted ∙ ap length e in
            absurd (ground (arith, long, none_left))
        | inr (ds, p, v, e) ↦
            let list : refs ≡ values ds ++ v ∷ [] =
              sym h.stands ∙ (ap values e ∙ values-snoc ds p v) in
            let pages = ap length (ap all_pages list ∙ all_pages-snoc (values ds) v) in
            evict_last-Shallow w w' ds p v long
              (omega
                (arith, few, ap length list, length-values ds, length-append (values ds) (v ∷ [])))
              (omega (
                arith,
                room,
                pages,
                length-append (all_pages (values ds)) (pages_of v),
                length-pages_of v,
              ))
              shallow (rw e at h.holds)
              (subst (λ rs. Tracks w.hashtable (all_pages rs)) list h.tracks) run
      ]
    ]

-- a valid window whose table is shallow
pub record IsSound (w : WindowSet) (refs : List MemRef) : Type 0 where
  pub valid : IsValid w refs
  pub shallow : IsShallow w.hashtable

-- the state after a successful insertion
abbrev pub Glides : WindowSet → List MemRef → Option WindowSet → Type 0
Glides w refs r =
    (w' : WindowSet) × (r ≡ some w')
    × IsSound w' refs
    × (w'.page_exponent ≡ w.page_exponent)
    × (w'.window_size ≡ w.window_size)

window_set_insert-evict :
    (system : Allocator) (w : WindowSet) (address page_size : ℕ) (heap : Heap) (queue : Queue)
    (t : Table)
    → ltb w.page_exponent 64 ≡ true
    → enqueue (system.malloc w.heap) w.heap w.queue (to_mem_ref w.page_exponent address page_size)
      ≡ some (heap, queue)
    → windowset_put w.hashtable (to_mem_ref w.page_exponent address page_size) ≡ some t
    → window_set_insert system w address page_size
      ≡ evict (record w { heap = heap; queue = queue; hashtable = t })
unfolding window_set_insert shifted_ref
window_set_insert-evict system w address page_size heap queue t small run run' =
    rw (small, run, run') refl

-- On a window set that is valid and whose table has at most two levels, if the numbers of its
-- references and of their pages stay below 2 ^ 64 and, with the new reference, at most 15 distinct
-- pages agree in their two last hexadecimal digits: `window_set_insert` returns such a window set
-- again. Its window is the old one with the new reference in front, without the last reference if it
-- had become longer than the window size.
pub window_set_insert-IsSound :
    (system : Allocator) (w : WindowSet) (refs : List MemRef) (address page_size : ℕ)
    → IsSound w refs
    → length refs + 1 < ull_mod
    → length (all_pages (to_mem_ref w.page_exponent address page_size ∷ refs)) < ull_mod
    → IsUncrowded (all_pages (to_mem_ref w.page_exponent address page_size ∷ refs))
    → Glides w
        (slide w.window_size (to_mem_ref w.page_exponent address page_size ∷ refs))
        (window_set_insert system w address page_size)
unfolding windowset_put all_pages pages_of
window_set_insert-IsSound system w refs address page_size h few room uncrowded =
    let r = to_mem_ref w.page_exponent address page_size in
    let fresh = system.malloc w.heap in
    let pages : length (all_pages refs) + r.page_count < ull_mod =
      omega (arith, room, length-append (pages_of r) (all_pages refs), length-pages_of r) in
    let cells = h.valid.cells in
    let size : length refs ≡ length cells = sym (ap length h.valid.stands) ∙ length-values cells in
    let (heap, queue, run₁, holds) =
      enqueue-Holds fresh w.heap w.queue r cells (system.not_null w.heap) (system.unused w.heap)
        (omega (arith, few, size)) h.valid.holds in
    let (t, run₂, tracks) =
      put_pages-Tracks r.page_count r.address 0 w.hashtable (all_pages refs) pages h.valid.tracks in
    let flat : (t : Table) → windowset_put w.hashtable r ≡ some t → IsShallow t = λ t run.
      put_pages-Shallow (λ j. count j (all_pages (r ∷ refs))) r.page_count r.address 0 w.hashtable t
        (all_pages refs) pages h.valid.tracks h.shallow
        (IsUncrowded-IsSparse (all_pages (r ∷ refs)) uncrowded) (λ j p. p) run in
    let (w', run, valid, e, s) =
      window_set_insert-Slides system w refs address page_size h.valid few room
        (λ t run. IsShallow-IsMergeable t (flat t run)) in
    let filled : WindowSet = record w { heap = heap; queue = queue; hashtable = t } in
    let filled-IsValid : IsValid filled (r ∷ refs) = record {
      cells = (fresh, r) ∷ cells;
      stands = ap (λ rs. r ∷ rs) h.valid.stands;
      holds = holds;
      tracks = tracks;
      shifts = h.valid.shifts;
    } in
    let evicted =
      sym (
        window_set_insert-evict system w address page_size heap queue t
          (ground (arith, h.valid.shifts)) run₁ run₂)
      ∙ run in
    (
      w',
      run,
      record {
        valid = valid;
        shallow =
            evict-Shallow filled w' (r ∷ refs) (flat t run₂) (omega (arith, few)) room
              filled-IsValid evicted;
      },
      e,
      s,
    )

new_hashtable-new : new_hashtable ≡ some (new_table 0)
unfolding new_hashtable
new_hashtable-new = new_hashtable_at-new 0 (omega arith)

initialize_window_set-run :
    (heap : Heap) (page_size window_size exponent : ℕ)
    → get_power_of_two page_size ≡ some exponent
    → exponent < 64
    → initialize_window_set heap page_size window_size
      ≡ some (record {
        page_exponent = exponent % 2 ^ 32;
        window_size = window_size;
        heap = heap;
        queue = new_queue;
        hashtable = new_table 0;
      })
unfolding initialize_window_set
initialize_window_set-run heap page_size window_size exponent e small =
    rw (e, new_hashtable-new) refl

-- a new window set is sound
pub initialize_window_set-IsSound :
    (heap : Heap) (page_size window_size exponent : ℕ)
    → get_power_of_two page_size ≡ some exponent
    → exponent < 64
    → (w : WindowSet) × (initialize_window_set heap page_size window_size ≡ some w)
      × IsSound w []
      × (w.page_exponent ≡ exponent)
      × (w.window_size ≡ window_size)
unfolding new_table
initialize_window_set-IsSound heap page_size window_size exponent e small =
    let (w, run, valid, at, sized) =
      initialize_window_set-IsValid heap page_size window_size exponent e small in
    let flat : IsShallow (new_table 0) = λ i lt. tt in
    (
      w,
      run,
      record {
        valid = valid;
        shallow =
            of_result HasShallow
              (initialize_window_set-run heap page_size window_size exponent e small) run flat;
      },
      at,
      sized,
    )
