-- ===== src/Valws/Program/Slides.antt =====
-- What the program prints for a stream that is longer than the window.
use c380_1code.Base.{
  ℕ, ◌+◌, ◌-◌, ◌≤◌, ◌<◌, ◌≡◌, refl, ◌∙◌, false, inl, inr, Bool-cases, Option, some, List, [], ◌∷◌,
  ltb, if◌then◌else◌, ull_mod, length, arith,
}
use c380_1code.Notapp.Args.{Str}
use c380_1code.Valws.Common.{MemRef, get_power_of_two}
use c380_1code.Valws.Queue.Memory.{Heap}
use c380_1code.Valws.WindowSet.{WindowSet, Allocator, to_mem_ref}
use c380_1code.Valws.WindowSet.Pages.{all_pages, drop_last}
use c380_1code.Valws.WindowSet.Insert.{slide, get_window_set_size-distinct}
use c380_1code.Valws.WindowSet.Run.{Access}
use c380_1code.Valws.WindowSet.Crowd.{IsUncrowded}
use c380_1code.Valws.WindowSet.Sliding.{
  IsSound, window_set_insert-IsSound, initialize_window_set-IsSound,
}
use c380_1code.Valws.Program.{Library, Run, skipsize_of, start_main, main}
use c380_1code.Valws.Program.Loop.{Holds, report, Keeps, read_lines-report}

-- At each reference that is not skipped the window, before its last reference leaves, has fewer than
-- 2 ^ 64 pages, of which at most `split_size` distinct ones agree in their two last digits.
abbrev pub IsCalm : (window_size exponent skipsize count : ℕ) → List MemRef → List Access → Type 0
IsCalm window_size exponent skipsize count refs [] = Unit
IsCalm window_size exponent skipsize count refs ((address, size) ∷ accesses) =
    let seen = to_mem_ref exponent address size ∷ refs in
    let later = IsCalm window_size exponent skipsize (count + 1) refs accesses in
    let next = IsCalm window_size exponent skipsize (count + 1) (slide window_size seen) accesses in
    if ltb (count + 1) skipsize
    then later
    else (length (all_pages seen) < ull_mod) × IsUncrowded (all_pages seen) × next

-- the window while it slides
record Runs (window_size exponent skipsize count : ℕ) (w : WindowSet) (refs : List MemRef)
    (accesses : List Access) : Type 0 where
  sound : IsSound w refs
  at : w.page_exponent ≡ exponent
  sized : w.window_size ≡ window_size
  within : length refs ≤ window_size
  few : window_size < ull_mod - 1
  calm : IsCalm window_size exponent skipsize count refs accesses

length-drop_last : (r : MemRef) (refs : List MemRef) → length (drop_last (r ∷ refs)) ≡ length refs
unfolding drop_last
length-drop_last r [] = refl
length-drop_last r (s ∷ refs) = omega (arith, length-drop_last s refs)

slide-within :
    (window_size : ℕ) (r : MemRef) (refs : List MemRef)
    → length refs ≤ window_size
    → length (slide window_size (r ∷ refs)) ≤ window_size
unfolding slide
slide-within window_size r refs h = elim (Bool-cases (ltb window_size (length (r ∷ refs)))) [
  | inl long ↦ rw long (omega (arith, length-drop_last r refs, h))
  | inr short ↦ rw short (ground (arith, short))
]

Runs-Keeps :
    (library : Library) (system : Allocator) (window_size exponent skipsize : ℕ)
    → Keeps library system window_size exponent skipsize (Runs window_size exponent skipsize)
Runs-Keeps library system window_size exponent skipsize = record {
  skips = λ count address size w refs accesses h skip. record {
    sound = h.sound;
    at = h.at;
    sized = h.sized;
    within = h.within;
    few = h.few;
    calm = rw skip at h.calm;
  };
  takes = λ count address size w refs accesses h taken.
      let seen = to_mem_ref exponent address size ∷ refs in
      let (room, uncrowded, next) = rw taken at h.calm in
      let (w', run, sound, e, s) =
        window_set_insert-IsSound system w refs address size h.sound
          (omega (arith, h.within, h.few)) (rw h.at room) (rw h.at uncrowded) in
      let sound' : IsSound w' (slide window_size seen) = rw (h.at, h.sized) at sound in
      (
        w',
        run,
        get_window_set_size-distinct w' (slide window_size seen) sound'.valid,
        record {
          sound = sound';
          at = e ∙ h.at;
          sized = s ∙ h.sized;
          within = slide-within window_size (to_mem_ref exponent address size) refs h.within;
          few = h.few;
          calm = next;
        },
      );
}

-- Run without -h, with a page size of 64 bits but 0, which has a power of two, and a window size below 2 ^ 64 - 1, on
-- lines that hold fewer than 2 ^ 64 references, the program returns 0, if at each reference the
-- window has fewer than 2 ^ 64 pages of which at most 15 distinct ones agree in their two last
-- hexadecimal digits. Its output is a line for each reference that is not skipped: the number of the
-- reference in the stream, and how many distinct pages the last `window_size` references touch that
-- were not skipped.
pub main-slides :
    (library : Library) (system : Allocator) (heap : Heap) (skip : Option Str)
    (page_text window_text : Str) (others lines : List Str) (accesses : List Access) (exponent : ℕ)
    → Holds library lines accesses
    → get_power_of_two (library.strtoull page_text 10) ≡ some exponent
    → exponent < 64
    → library.strtoull window_text 10 < ull_mod - 1
    → length accesses < ull_mod
    → IsCalm
        (library.strtoull window_text 10)
        exponent
        (skipsize_of library system skip)
        0
        []
        accesses
    → main library system heap
        (record { skip = skip; help = false; operands = page_text ∷ window_text ∷ others })
        lines
      ≡ some (
        0,
        report
            (library.strtoull window_text 10)
            exponent
            (skipsize_of library system skip)
            0
            []
            accesses,
      )
unfolding main start_main
main-slides library system heap skip page_text window_text others lines accesses exponent holds
      power small few counts calm =
    let size = library.strtoull window_text 10 in
    let skipsize = skipsize_of library system skip in
    let (w, run, sound, e, s) =
      initialize_window_set-IsSound heap (library.strtoull page_text 10) size exponent power
        small in
    let r : Run = record { mem_ref_count = 0; ref_page_size = 0; window = w } in
    let printed =
      read_lines-report library system holds size exponent skipsize (Runs size exponent skipsize)
        (Runs-Keeps library system size exponent skipsize) [] r
        (record { sound = sound; at = e; sized = s; within = omega arith; few = few; calm = calm })
        (omega (arith, counts)) in
    rw (run, printed) refl
