-- ===== src/Valws/Program/Reports.antt =====
-- What the program prints for a stream of references.
use mathlib.Core.Path.{subst}
use c380_1code.Base.{
  ℕ, ◌+◌, ◌-◌, ◌≤◌, ◌<◌, ◌≡◌, refl, ◌∙◌, false, Option, some, List, [], ◌∷◌, ltb, if◌then◌else◌,
  ull_mod, length, arith,
}
use c380_1code.Notapp.Args.{Str}
use c380_1code.Valws.Common.{MemRef, get_power_of_two}
use c380_1code.Valws.Queue.Memory.{Heap}
use c380_1code.Valws.WindowSet.{WindowSet, Allocator, to_mem_ref}
use c380_1code.Valws.WindowSet.Pages.{all_pages}
use c380_1code.Valws.Program.Loop.{Holds, report, Keeps, read_lines-report}
use c380_1code.Valws.WindowSet.Insert.{IsValid, slide, get_window_set_size-distinct}
use c380_1code.Valws.WindowSet.Run.{
  Access, references_of, pages-grow, initialize_window_set-IsValid, window_set_insert-fills,
}
use c380_1code.Valws.Program.{Library, Run, skipsize_of, start_main, main}

-- the references that are not skipped when `count` have been read
unfoldable pub kept : (skipsize count : ℕ) → List Access → List Access
kept skipsize count [] = []
kept skipsize count (access ∷ accesses) =
    let rest = kept skipsize (count + 1) accesses in
    if ltb (count + 1) skipsize then rest else access ∷ rest

-- the window of a stream that is not longer than the window
record Fills (window_size exponent skipsize count : ℕ) (w : WindowSet) (refs : List MemRef)
    (accesses : List Access) : Type 0 where
  valid : IsValid w refs
  at : w.page_exponent ≡ exponent
  sized : w.window_size ≡ window_size
  short : length refs + length accesses ≤ window_size
  few : window_size < ull_mod - 1
  room : length (all_pages (references_of exponent (kept skipsize count accesses) refs)) < ull_mod

slide-short :
    (window_size : ℕ) (refs : List MemRef)
    → length refs ≤ window_size
    → slide window_size refs ≡ refs
unfolding slide
slide-short window_size refs h =
    let off : ltb window_size (length refs) ≡ false = ground (arith, h) in rw off refl

Fills-Keeps :
    (library : Library) (system : Allocator) (window_size exponent skipsize : ℕ)
    → Keeps library system window_size exponent skipsize (Fills window_size exponent skipsize)
unfolding kept
Fills-Keeps library system window_size exponent skipsize = record {
  skips = λ count address size w refs accesses h skip. record {
    valid = h.valid;
    at = h.at;
    sized = h.sized;
    short = omega (arith, h.short);
    few = h.few;
    room = rw skip at h.room;
  };
  takes = λ count address size w refs accesses h taken.
      let seen = to_mem_ref exponent address size ∷ refs in
      let later = kept skipsize (count + 1) accesses in
      let room' : length (all_pages (references_of exponent later seen)) < ull_mod =
        unfold references_of in rw taken at h.room in
      let (w', run, h', e', s') =
        window_set_insert-fills system w refs address size h.valid (omega (arith, h.short, h.sized))
          (omega (arith, h.short, h.few))
          (rw h.at (omega (arith, room', pages-grow exponent later seen))) in
      let valid' : IsValid w' seen =
        subst (λ x. IsValid w' (to_mem_ref x address size ∷ refs)) h.at h' in
      let same : slide window_size seen ≡ seen =
        slide-short window_size seen (omega (arith, h.short)) in
      (
        w',
        run,
        rw same (get_window_set_size-distinct w' seen valid'),
        rw same (record {
          valid = valid';
          at = e' ∙ h.at;
          sized = s' ∙ h.sized;
          short = omega (arith, h.short);
          few = h.few;
          room = room';
        }),
      );
}

-- Run without -h and with a page size of 64 bits but 0, which has a power of two, on lines that hold no more references
-- than the window size, which is below 2 ^ 64 - 1, and fewer than 2 ^ 64 pages, the program returns
-- 0. Its output is a line for each reference that is not skipped: the number of the reference in the
-- stream, and how many distinct pages the last `window_size` references touch that were not skipped.
pub main-report :
    (library : Library) (system : Allocator) (heap : Heap) (skip : Option Str)
    (page_text window_text : Str) (others lines : List Str) (accesses : List Access) (exponent : ℕ)
    → Holds library lines accesses
    → get_power_of_two (library.strtoull page_text 10) ≡ some exponent
    → exponent < 64
    → length accesses ≤ library.strtoull window_text 10
    → library.strtoull window_text 10 < ull_mod - 1
    → length
        (all_pages (references_of exponent (kept (skipsize_of library system skip) 0 accesses) []))
      < ull_mod
    → main library system heap
        (record { skip = skip; help = false; operands = page_text ∷ window_text ∷ others })
        lines
      ≡ some (
        0,
        report
            (library.strtoull window_text 10)
            exponent
            (skipsize_of library system skip)
            0
            []
            accesses,
      )
unfolding main start_main
main-report library system heap skip page_text window_text others lines accesses exponent holds
      power small short few room =
    let (w, run, valid, e, s) =
      initialize_window_set-IsValid heap (library.strtoull page_text 10)
        (library.strtoull window_text 10) exponent power small in
    let r : Run = record { mem_ref_count = 0; ref_page_size = 0; window = w } in
    let size = library.strtoull window_text 10 in
    let skipsize = skipsize_of library system skip in
    let printed =
      read_lines-report library system holds size exponent skipsize (Fills size exponent skipsize)
        (Fills-Keeps library system size exponent skipsize) [] r
        (record {
          valid = valid;
          at = e;
          sized = s;
          short = omega (arith, short);
          few = few;
          room = room;
        })
        (omega (arith, short, few)) in
    rw (run, printed) refl
