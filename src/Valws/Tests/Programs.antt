-- ===== src/Valws/Tests/Programs.antt =====
-- A run of the program on two lines.
use c380_1code.Base.{
  ℕ, ◌≡◌, refl, false, Option, none, some, List, [], ◌∷◌, arith, ◌==◌, if◌then◌else◌,
}
use c380_1code.Notapp.Args.{Str, str_eq}
use c380_1code.Valws.Common.{get_power_of_two}
use c380_1code.Valws.Lines.{is_empty_line, is_valid_code}
use c380_1code.Valws.WindowSet.{to_mem_ref}
use c380_1code.Valws.WindowSet.Pages.{all_pages, pages_of, page_list, drop_last, distinct, count}
use c380_1code.Valws.WindowSet.Run.{references_of}
use c380_1code.Valws.Program.{Library, main, skipsize_of}
use c380_1code.Valws.Program.Loop.{Holds, reference, unread, blank, report}
use c380_1code.Valws.Program.Reports.{kept, main-report}
use c380_1code.Valws.Program.Slides.{IsCalm, main-slides}
use c380_1code.Valws.WindowSet.Insert.{slide}
use c380_1code.Valws.WindowSet.Crowd.{crowd-le-length}
use c380_1code.Valws.Tests.Windows.{system}

-- a library that reads a line "Mas" as a reference of s bytes at the address a
scan : Str → Option (Str × Str)
scan [] = none
scan (c ∷ numbers) = if c == 77 then some (c ∷ [], numbers) else none

head_of : Str → Option Str
head_of [] = none
head_of (c ∷ rest) = some (c ∷ [])

tail_of : Str → Option Str
tail_of [] = none
tail_of (c ∷ rest) = some rest

number_of : Str → Option ℕ
number_of [] = none
number_of (c ∷ rest) = some c

digit_of : Str → ℕ → ℕ
digit_of [] base = 0
digit_of (c ∷ rest) base = c

abbrev small : Library
small = record {
  isspace = λ c. c == 32;
  scan_line = scan;
  first_token = head_of;
  second_token = tail_of;
  strtoull = digit_of;
  scan_number = number_of;
}

-- a comment, a reference that ends in the page 1, and a blank line
abbrev input : List Str
input = (35 ∷ []) ∷ (77 ∷ 15 ∷ 2 ∷ []) ∷ (32 ∷ []) ∷ []

input-Holds : Holds small input ((15, 2) ∷ [])
unfolding is_empty_line is_valid_code str_eq scan head_of tail_of number_of digit_of
input-Holds = unread (35 ∷ []) _ _ refl refl (
    reference (77 ∷ 15 ∷ 2 ∷ []) (77 ∷ []) (15 ∷ 2 ∷ []) (15 ∷ []) (2 ∷ []) 2 _ _ refl refl refl
      refl refl refl (blank (32 ∷ []) [] refl))

main-report_example :
    main small system []
      (record { skip = none; help = false; operands = (16 ∷ []) ∷ (4 ∷ []) ∷ [] })
      input
    ≡ some (0, report 4 4 (skipsize_of small system none) 0 [] ((15, 2) ∷ []))
unfolding digit_of get_power_of_two kept skipsize_of references_of all_pages pages_of to_mem_ref
main-report_example =
    main-report small system [] none (16 ∷ []) (4 ∷ []) [] input ((15, 2) ∷ []) 4 input-Holds refl
      (omega arith) (omega arith) (omega arith) (omega arith)

-- a second reference, after which a window of one reference has slid
abbrev longer : List Str
longer = (77 ∷ 15 ∷ 2 ∷ []) ∷ (77 ∷ 47 ∷ 1 ∷ []) ∷ (32 ∷ []) ∷ []

longer-Holds : Holds small longer ((15, 2) ∷ (47, 1) ∷ [])
unfolding is_empty_line is_valid_code str_eq scan head_of tail_of number_of digit_of
longer-Holds =
    reference (77 ∷ 15 ∷ 2 ∷ []) (77 ∷ []) (15 ∷ 2 ∷ []) (15 ∷ []) (2 ∷ []) 2 _ _ refl refl refl
      refl refl refl
      (reference (77 ∷ 47 ∷ 1 ∷ []) (77 ∷ []) (47 ∷ 1 ∷ []) (47 ∷ []) (1 ∷ []) 1 _ _ refl refl refl
        refl refl refl (blank (32 ∷ []) [] refl))

longer-IsCalm : IsCalm 1 4 0 0 [] ((15, 2) ∷ (47, 1) ∷ [])
unfolding all_pages pages_of page_list to_mem_ref slide
longer-IsCalm = (
  omega arith,
  λ r. omega (arith, crowd-le-length r (0 ∷ 1 ∷ [])),
  (omega arith, λ r. omega (arith, crowd-le-length r (2 ∷ 0 ∷ 1 ∷ [])), tt),
)

main-slides_example :
    main small system []
      (record { skip = none; help = false; operands = (16 ∷ []) ∷ (1 ∷ []) ∷ [] })
      longer
    ≡ some (0, (1, 2) ∷ (2, 1) ∷ [])
unfolding digit_of get_power_of_two skipsize_of report slide drop_last distinct count all_pages
    pages_of page_list to_mem_ref
main-slides_example =
    main-slides small system [] none (16 ∷ []) (1 ∷ []) [] longer ((15, 2) ∷ (47, 1) ∷ []) 4
      longer-Holds refl (omega arith) (omega arith) (omega arith) longer-IsCalm
