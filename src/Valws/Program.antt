-- ===== src/Valws/Program.antt =====
-- Assignment03/valws379.c: the program. The functions of the C library that read the arguments and
-- the lines are parameters. The input is the list of the lines that `fgets` yields; a line of output
-- is a pair of numbers, and what the program prints on an error is not modelled. The parts for
-- debugging are left out, as in a build without their macros.
pub mod Loop
pub mod Reports
pub mod Slides
use c380_1code.Base.{
  ℕ, zero, suc, ◌+◌, ◌%◌, Bool, true, false, Option, none, some, List, [], ◌∷◌, ltb, if◌then◌else◌,
  inc, ull_mod, ◌>>=◌,
}
use c380_1code.Notapp.Args.{Str}
use c380_1code.Valws.Lines.{is_empty_line, is_valid_code}
use c380_1code.Valws.Queue.Memory.{Heap}
use c380_1code.Valws.WindowSet.{
  WindowSet, Allocator, initialize_window_set, window_set_insert, get_window_set_size,
}

pub record Library : Type 0 where
  pub isspace : ℕ → Bool
  pub scan_line : Str → Option (Str × Str)  -- sscanf with "%4s %100s", `none` if it fails
  pub first_token : Str → Option Str  -- strtok with ",", `none` for NULL
  pub second_token : Str → Option Str
  pub strtoull : Str → (base : ℕ) → ℕ
  pub scan_number : Str → Option ℕ  -- sscanf with "%llu"

-- the variables of `main` that survive a round of its loop
pub record Run : Type 0 where
  pub mem_ref_count : ℕ
  pub ref_page_size : ℕ
  pub window : WindowSet

-- a line of output: `mem_ref_count` and the size of the window set
abbrev pub Output : Type 0
Output = ℕ × ℕ

-- what `getopt` has found: the argument of -s, whether -h stands there, and the operands
pub record Options : Type 0 where
  pub skip : Option Str
  pub help : Bool
  pub operands : List Str

-- the number that `sscanf` has scanned, or what the variable held before
abbrev pub size_or : ℕ → Option ℕ → ℕ
size_or old none = old
size_or old (some n) = n

abbrev pub put_output : Option Output → List Output → List Output
put_output none outputs = outputs
put_output (some output) outputs = output ∷ outputs

module _ (library : Library) (system : Allocator) where
  -- a reference that is not skipped; `none` is the use of NULL, or a failure of the window set
  unfoldable pub take_reference : Run → Str → Option (Run × Output)
  take_reference r str_numbers = do
    address ← library.first_token str_numbers
    size ← library.second_token str_numbers
    let ref_page_size = size_or r.ref_page_size (library.scan_number size)
    window ← window_set_insert system r.window (library.strtoull address 16) ref_page_size
    some (
      record r { ref_page_size = ref_page_size; window = window },
      (r.mem_ref_count, get_window_set_size window),
    )

  -- a line: the variables after it, and the output if there is one
  unfoldable pub process_line : (skipsize : ℕ) → Run → Str → Option (Run × Option Output)
  unfolding take_reference
  process_line skipsize r line = elim (library.scan_line line) [
    | none ↦ some (r, none)
    | some (char_code, str_numbers) ↦
        (if is_valid_code char_code
          then (let counted : Run = record r { mem_ref_count = inc r.mem_ref_count } in
              if ltb counted.mem_ref_count skipsize
              then some (counted, none)
              else take_reference counted str_numbers >>= λ (r', output). some (r', some output))
          else some (r, none))
  ]

  -- the `while` loop
  unfoldable pub read_lines : (skipsize : ℕ) → Run → List Str → Option (List Output)
  read_lines skipsize r [] = some []
  read_lines skipsize r (line ∷ lines) =
      let rest = process_line skipsize r line >>= λ (r', output).
      read_lines skipsize r' lines >>= λ outputs. some (put_output output outputs) in
      if is_empty_line library.isspace line then rest else some []

  unfoldable pub skipsize_of : Option Str → ℕ
  skipsize_of none = 0
  skipsize_of (some optarg) = (library.strtoull optarg 10 + 1) % ull_mod

  -- `main` after the arguments have been read: the value that it returns and the output
  unfoldable pub start_main : Heap → Option Str → List Str → List Str → Option (ℕ × List Output)
  start_main heap skip (page_size ∷ window_size ∷ others) lines = do
    window ←
        initialize_window_set heap (library.strtoull page_size 10) (library.strtoull window_size 10)
    outputs ←
        read_lines (skipsize_of skip)
          (record { mem_ref_count = 0; ref_page_size = 0; window = window }) lines
    some (0, outputs)
  start_main heap skip _ lines = some (1, [])

  unfoldable pub main : Heap → Options → List Str → Option (ℕ × List Output)
  unfolding start_main
  main heap options lines =
      if options.help then some (0, []) else start_main heap options.skip options.operands lines
