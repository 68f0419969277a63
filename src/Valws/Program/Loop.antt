-- ===== src/Valws/Program/Loop.antt =====
-- The loop of the program on the lines of a stream, for any invariant of the window.
use c380_1code.Base.{
  ℕ, ◌+◌, ◌<◌, ◌≡◌, refl, sym, true, false, Bool-cases, inl, inr, Option, none, some, List, [], ◌∷◌,
  ltb, if◌then◌else◌, inc, ull_mod, length, arith,
}
use c380_1code.Notapp.Args.{Str}
use c380_1code.Valws.Common.{MemRef}
use c380_1code.Valws.Lines.{is_empty_line, is_valid_code}
use c380_1code.Valws.WindowSet.{
  WindowSet, Allocator, to_mem_ref, window_set_insert, get_window_set_size,
}
use c380_1code.Valws.WindowSet.Pages.{distinct, all_pages}
use c380_1code.Valws.WindowSet.Insert.{slide}
use c380_1code.Valws.WindowSet.Run.{Access}
use c380_1code.Valws.Program.{
  Library, Run, Output, take_reference, process_line, put_output, read_lines,
}

-- the output: behind each reference that is not skipped, its number in the stream and the number of
-- distinct pages of the window, which are the last `window_size` references that were not skipped
unfoldable pub report :
    (window_size exponent skipsize count : ℕ) → List MemRef → List Access → List Output
report window_size exponent skipsize count refs [] = []
report window_size exponent skipsize count refs ((address, size) ∷ accesses) =
    let seen = slide window_size (to_mem_ref exponent address size ∷ refs) in
    let later = report window_size exponent skipsize (count + 1) refs accesses in
    let next = report window_size exponent skipsize (count + 1) seen accesses in
    if ltb (count + 1) skipsize then later else (count + 1, distinct (all_pages seen)) ∷ next

module _ (library : Library) where
  -- the lines hold the references: a line that is not blank holds one, or none at all; a blank line
  -- ends the stream
  pub data Holds : List Str → List Access → Type 0 where
    end : Holds [] []
    blank :
        (line : Str) (lines : List Str)
        → is_empty_line library.isspace line ≡ false
        → Holds (line ∷ lines) []
    unread :
        (line : Str) (lines : List Str) (accesses : List Access)
        → is_empty_line library.isspace line ≡ true
        → library.scan_line line ≡ none
        → Holds lines accesses
        → Holds (line ∷ lines) accesses
    other :
        (line char_code str_numbers : Str) (lines : List Str) (accesses : List Access)
        → is_empty_line library.isspace line ≡ true
        → library.scan_line line ≡ some (char_code, str_numbers)
        → is_valid_code char_code ≡ false
        → Holds lines accesses
        → Holds (line ∷ lines) accesses
    reference :
        (line char_code str_numbers address_text size_text : Str) (size : ℕ) (lines : List Str)
        (accesses : List Access)
        → is_empty_line library.isspace line ≡ true
        → library.scan_line line ≡ some (char_code, str_numbers)
        → is_valid_code char_code ≡ true
        → library.first_token str_numbers ≡ some address_text
        → library.second_token str_numbers ≡ some size_text
        → library.scan_number size_text ≡ some size
        → Holds lines accesses
        → Holds (line ∷ lines) ((library.strtoull address_text 16, size) ∷ accesses)

  module _ (system : Allocator) where
    -- the lines after one that is not blank
    read_lines-step :
        (skipsize : ℕ) (r r' : Run) (output : Option Output) (line : Str) (lines : List Str)
        (outputs : List Output)
        → is_empty_line library.isspace line ≡ true
        → process_line library system skipsize r line ≡ some (r', output)
        → read_lines library system skipsize r' lines ≡ some outputs
        → read_lines library system skipsize r (line ∷ lines) ≡ some (put_output output outputs)
    unfolding read_lines
    read_lines-step skipsize r r' output line lines outputs on step rest = rw (on, step, rest) refl

    take_reference-window :
        (r : Run) (str_numbers address_text size_text : Str) (size : ℕ) (window : WindowSet)
        → library.first_token str_numbers ≡ some address_text
        → library.second_token str_numbers ≡ some size_text
        → library.scan_number size_text ≡ some size
        → window_set_insert system r.window (library.strtoull address_text 16) size ≡ some window
        → take_reference library system r str_numbers
          ≡ some (
            record r { ref_page_size = size; window = window },
            (r.mem_ref_count, get_window_set_size window),
          )
    unfolding take_reference
    take_reference-window r str_numbers address_text size_text size window a b c d =
        rw (a, b, c, d) refl

    process_line-skip :
        (skipsize count : ℕ) (r : Run) (line char_code str_numbers : Str)
        → library.scan_line line ≡ some (char_code, str_numbers)
        → is_valid_code char_code ≡ true
        → inc r.mem_ref_count ≡ count
        → ltb count skipsize ≡ true
        → process_line library system skipsize r line
          ≡ some (record r { mem_ref_count = count }, none)
    unfolding process_line
    process_line-skip skipsize count r line char_code str_numbers a b e c =
        rw (a, b, e, c, process_line) refl

    process_line-take :
        (skipsize count : ℕ) (r r' : Run) (output : Output) (line char_code str_numbers : Str)
        → library.scan_line line ≡ some (char_code, str_numbers)
        → is_valid_code char_code ≡ true
        → inc r.mem_ref_count ≡ count
        → ltb count skipsize ≡ false
        → take_reference library system (record r { mem_ref_count = count }) str_numbers
          ≡ some (r', output)
        → process_line library system skipsize r line ≡ some (r', some output)
    unfolding process_line
    process_line-take skipsize count r r' output line char_code str_numbers a b e c d =
        rw (a, b, e, c, d, process_line) refl

    -- what an invariant of the window gives for the next reference of the stream
    pub record Keeps (window_size exponent skipsize : ℕ)
        (Inv : (count : ℕ) → WindowSet → List MemRef → List Access → Type 0) : Type 0 where
      pub skips :
          (count address size : ℕ) (w : WindowSet) (refs : List MemRef) (accesses : List Access)
          → Inv count w refs ((address, size) ∷ accesses)
          → ltb (count + 1) skipsize ≡ true
          → Inv (count + 1) w refs accesses
      pub takes :
          (count address size : ℕ) (w : WindowSet) (refs : List MemRef) (accesses : List Access)
          → Inv count w refs ((address, size) ∷ accesses)
          → ltb (count + 1) skipsize ≡ false
          → (w' : WindowSet) × (window_set_insert system w address size ≡ some w')
            × (get_window_set_size w'
                ≡ distinct
                    (all_pages (slide window_size (to_mem_ref exponent address size ∷ refs))))
            × Inv
                (count + 1)
                w'
                (slide window_size (to_mem_ref exponent address size ∷ refs))
                accesses

    pub read_lines-report :
        {lines : List Str} {accesses : List Access}
        → Holds lines accesses
        → (window_size exponent skipsize : ℕ)
          (Inv : (count : ℕ) → WindowSet → List MemRef → List Access → Type 0)
        → Keeps window_size exponent skipsize Inv
        → (refs : List MemRef) (r : Run) → Inv r.mem_ref_count r.window refs accesses
        → r.mem_ref_count + length accesses < ull_mod
        → read_lines library system skipsize r lines
          ≡ some (report window_size exponent skipsize r.mem_ref_count refs accesses)
    unfolding report
    read_lines-report end window_size exponent skipsize Inv keeps refs r h counts =
        unfold read_lines in refl
    read_lines-report (blank line lines off) window_size exponent skipsize Inv keeps refs r h
          counts =
        unfold read_lines in rw off refl
    read_lines-report (unread line lines accesses on failed rest) window_size exponent skipsize Inv
          keeps refs r h counts =
        read_lines-step skipsize r r none line lines _ on
          (unfold process_line in rw (failed, process_line) refl)
          (read_lines-report rest window_size exponent skipsize Inv keeps refs r h counts)
    read_lines-report (other line char_code str_numbers lines accesses on scanned invalid rest)
          window_size exponent skipsize Inv keeps refs r h counts =
        read_lines-step skipsize r r none line lines _ on
          (unfold process_line in rw (scanned, invalid, process_line) refl)
          (read_lines-report rest window_size exponent skipsize Inv keeps refs r h counts)
    read_lines-report
          (reference line char_code str_numbers address_text size_text size lines accesses on
            scanned valid a b c rest)
          window_size exponent skipsize Inv keeps refs r h counts =
        let address = library.strtoull address_text 16 in
        let count = r.mem_ref_count + 1 in
        let next : inc r.mem_ref_count ≡ r.mem_ref_count + 1 = omega (arith, counts) in
        elim (Bool-cases (ltb (r.mem_ref_count + 1) skipsize)) [
          | inl skip ↦
              let r' : Run = record r { mem_ref_count = r.mem_ref_count + 1 } in
              rw skip (
                read_lines-step skipsize r r' none line lines _ on
                  (process_line-skip skipsize count r line char_code str_numbers scanned valid next
                    skip)
                  (read_lines-report rest window_size exponent skipsize Inv keeps refs r'
                    (keeps.skips r.mem_ref_count address size r.window refs accesses h skip)
                    (omega (arith, counts))))
          | inr taken ↦
              let seen = slide window_size (to_mem_ref exponent address size ∷ refs) in
              let (w, run, size_is, h') =
                keeps.takes r.mem_ref_count address size r.window refs accesses h taken in
              let r' : Run = record { mem_ref_count = count; ref_page_size = size; window = w } in
              rw taken (
                read_lines-step skipsize r r' (some (count, distinct (all_pages seen))) line lines _
                  on
                  (process_line-take skipsize count r r' (count, distinct (all_pages seen)) line
                    char_code str_numbers scanned valid next taken
                    (rw (sym size_is) (
                      take_reference-window (record r { mem_ref_count = count }) str_numbers
                        address_text size_text size w a b c run)))
                  (read_lines-report rest window_size exponent skipsize Inv keeps seen r' h'
                    (omega (arith, counts))))
        ]
