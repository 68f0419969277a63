-- ===== src/Valws/Tests/Windows.antt =====
-- The queue and the window set at concrete inputs.
use mathlib.Core.Path.{subst}
use mathlib.Core.Option.{some-injective}
use c380_1code.Base.{
  ◌<◌, ◌/◌, ◌^◌, ◌↔◌, ℕ, suc, ◌+◌, ◌≤◌, ◌≡◌, ◌≢◌, refl, inl, inr, arith, some, none, true, false,
  List, [], ◌∷◌, ◌==◌, Bool-cases, ◌>>=◌,
}
use c380_1code.Valws.Common.{MemRef, get_power_of_two}
use c380_1code.Valws.Hashtable.{Table}
use c380_1code.Valws.Queue.{Queue, enqueue, dequeue, destroy_queue}
use c380_1code.Valws.Queue.Destroy.{destroy_queue-Frees}
use c380_1code.Valws.Queue.Memory.{Heap, cell}
use c380_1code.Valws.Queue.Chain.{Cells, IsChain, first, last, has}
use c380_1code.Valws.Queue.Refinement.{Holds, enqueue-Holds, dequeue-Holds}
use c380_1code.Valws.WindowSet.{
  WindowSet, Allocator, initialize_window_set, window_set_insert, get_window_set_size, to_mem_ref,
}
use c380_1code.Valws.WindowSet.Pages.{distinct, all_pages}
use c380_1code.Valws.Tests.Tables.{single, single-IsTable}
use c380_1code.Valws.LinkedList.{sll_add}
use c380_1code.Valws.LinkedList.Contents.{value_of}
use c380_1code.Valws.Hashtable.{bucket_index, put, split}
use c380_1code.Valws.Hashtable.Contents.{value_in}
use c380_1code.Valws.Hashtable.Root.{references}
use c380_1code.Valws.Hashtable.Drain.{IsMergeable}
use c380_1code.Valws.WindowSet.{windowset_put}
use c380_1code.Valws.WindowSet.Pages.{count, pages_of, page_list}
use c380_1code.Valws.WindowSet.Loops.{Tracks}
use c380_1code.Valws.WindowSet.Insert.{IsValid, Slides, slide, window_set_insert-Slides}
use c380_1code.Valws.WindowSet.Crowd.{crowd-le-length}
use c380_1code.Valws.WindowSet.Sliding.{IsSound, Glides, window_set_insert-IsSound}
use c380_1code.Valws.WindowSet.Touched.{to_mem_ref-touched}
use c380_1code.Valws.WindowSet.Run.{Access, insert_all, references_of, window_size-distinct}

-- the least pointer above all the cells
pub next : Heap → ℕ
next [] = 1
next ((p, n) ∷ h) = suc p + next h

pub cell-next : (h : Heap) (q : ℕ) → next h ≤ q → cell q h ≡ none
unfolding next cell
cell-next [] q far = refl
cell-next ((p, n) ∷ h) q far =
    let rest = cell-next h q (omega (arith, far)) in ground (arith, rest, far)

pub next-pos : (h : Heap) → next h ≢ 0
unfolding next
next-pos [] = λ e. absurd (omega (arith, e))
next-pos ((p, n) ∷ h) = λ e. absurd (omega (arith, e))

abbrev pub system : Allocator
system = record {
  malloc = next;
  not_null = next-pos;
  unused = λ h. cell-next h (next h) (omega arith);
}

abbrev zero_ref : MemRef
zero_ref = record { address = 0; page_count = 1 }

abbrev first_ref : MemRef
first_ref = record { address = 5; page_count = 2 }

abbrev second_ref : MemRef
second_ref = record { address = 6; page_count = 1 }

abbrev two_heap : Heap
two_heap =
    (1, record { value = second_ref; head = 0; tail = 2 })
    ∷ (2, record { value = first_ref; head = 1; tail = 0 })
    ∷ []

abbrev two : Queue
two = record { size = 2; head = 1; tail = 2 }

abbrev two_cells : Cells
two_cells = (1, second_ref) ∷ (2, first_ref) ∷ []

two-Holds : Holds two_heap two two_cells
unfolding IsChain first last cell
two-Holds = record {
  chain = (omega arith, refl, refl, (omega arith, refl, refl, tt));
  at_head = refl;
  at_tail = refl;
  counted = refl;
}

enqueue-Holds_example :
    (h : Heap) × (q : Queue) × (enqueue 3 two_heap two second_ref ≡ some (h, q))
    × Holds h q ((3, second_ref) ∷ two_cells)
unfolding cell
enqueue-Holds_example =
    enqueue-Holds 3 two_heap two second_ref two_cells (omega arith) refl (omega arith) two-Holds

dequeue-Holds_example :
    (h : Heap) × (q : Queue) × (dequeue two_heap two ≡ some (first_ref, h, q))
    × Holds h q ((1, second_ref) ∷ [])
    × (cell 2 h ≡ none)
dequeue-Holds_example =
    dequeue-Holds two_heap two 2 first_ref ((1, second_ref) ∷ []) (omega arith) two-Holds

destroy_queue-Frees_example :
    ((h : Heap) × (destroy_queue 3 two_heap (some two) ≡ some h)
      × ((x : ℕ) → has x two_cells ≡ true → cell x h ≡ none)
      × ((x : ℕ) → has x two_cells ≡ false → cell x h ≡ cell x two_heap))
    × ((rounds : ℕ) → destroy_queue rounds two_heap none ≡ some two_heap)
destroy_queue-Frees_example = destroy_queue-Frees two_heap two two_cells (omega arith) two-Holds

-- two accesses of the page 16, one of them of the page 17 too
abbrev accesses : List Access
accesses = (256, 4) ∷ (271, 2) ∷ []

references_of_output :
    references_of 4 accesses []
    ≡ record { address = 16; page_count = 2 } ∷ record { address = 16; page_count = 1 } ∷ []
unfolding references_of to_mem_ref
references_of_output = refl

abbrev window : WindowSet
window = record {
  page_exponent = 4;
  window_size = 1;
  heap = (1, record { value = zero_ref; head = 0; tail = 0 }) ∷ [];
  queue = record { size = 1; head = 1; tail = 1 };
  hashtable = single 0;
}

window-Holds : Holds window.heap window.queue ((1, zero_ref) ∷ [])
unfolding IsChain first last cell
window-Holds = record {
  chain = (omega arith, refl, refl, tt);
  at_head = refl;
  at_tail = refl;
  counted = refl;
}

window-Tracks : Tracks (single 0) (all_pages (zero_ref ∷ []))
unfolding all_pages count distinct references single value_in value_of pages_of page_list
window-Tracks = record {
  valid = single-IsTable 0 (omega arith);
  reads = λ j. elim (Bool-cases (bucket_index j 0 == 0)) [
    | inl e ↦ rw e (ground arith)
    | inr e ↦ rw e (ground arith)
  ];
  counted = refl;
}

window-IsValid : IsValid window (zero_ref ∷ [])
window-IsValid = record {
  cells = (1, zero_ref) ∷ [];
  stands = refl;
  holds = window-Holds;
  tracks = window-Tracks;
  shifts = omega arith;
}

again-IsMergeable :
    (t : Table) → windowset_put (single 0) (to_mem_ref 4 3 4) ≡ some t → IsMergeable t
unfolding to_mem_ref windowset_put single sll_add put split
again-IsMergeable t e =
    subst IsMergeable (some-injective _ _ e)
      (λ i h. elim (Bool-cases (i == 0)) [ inl q ↦ rw q tt | inr q ↦ rw q tt ])

window_set_insert-Slides_example :
    Slides window (slide 1 (to_mem_ref 4 3 4 ∷ zero_ref ∷ [])) (window_set_insert system window 3 4)
unfolding all_pages to_mem_ref pages_of
window_set_insert-Slides_example =
    window_set_insert-Slides system window (zero_ref ∷ []) 3 4 window-IsValid (omega arith)
      (omega arith) again-IsMergeable

window-IsSound : IsSound window (zero_ref ∷ [])
unfolding single
window-IsSound = record { valid = window-IsValid; shallow = λ i lt. tt }

window_set_insert-IsSound_example :
    Glides window (slide 1 (to_mem_ref 4 3 4 ∷ zero_ref ∷ [])) (window_set_insert system window 3 4)
unfolding all_pages to_mem_ref pages_of page_list
window_set_insert-IsSound_example =
    window_set_insert-IsSound system window (zero_ref ∷ []) 3 4 window-IsSound (omega arith)
      (omega arith) (λ r. omega (arith, crowd-le-length r (0 ∷ 0 ∷ [])))

window_size-distinct_example :
    (initialize_window_set [] 16 3 >>= λ w.
    insert_all system w accesses >>= λ w'. some (get_window_set_size w'))
    ≡ some (distinct (all_pages (references_of 4 accesses [])))
unfolding references_of to_mem_ref all_pages get_power_of_two pages_of
window_size-distinct_example =
    window_size-distinct system [] 16 3 4 accesses refl (omega arith) (omega arith) (omega arith)
      (omega arith)

to_mem_ref-touched_example :
    (((to_mem_ref 4 271 2).address ≤ 17)
      × (17 < (to_mem_ref 4 271 2).address + (to_mem_ref 4 271 2).page_count))
    ↔ ((byte : ℕ) × (271 ≤ byte) × (byte < 273) × (byte / 2 ^ 4 ≡ 17))
to_mem_ref-touched_example = to_mem_ref-touched 4 271 2 17 (omega arith) (omega arith)
