-- ===== src/MemLayout.antt =====
-- Assignment01/memlayout.h and memlayout.c. Whether an access to a page raises SIGSEGV or SIGBUS is
-- up to the operating system: the model takes two tests, `readable` and `writable`, of an address.
-- The handler returns to the last `sigsetjmp`, so that a failed access ends the attempts on a page.
-- `unsigned int` is a number below 2 ^ 32. The array of the caller is a function of the index.
pub mod Regions
pub mod Scan
pub mod Print
mod Tests
use c380_1code.Base.{
  ℕ, zero, suc, ◌+◌, ◌*◌, ◌-◌, ◌%◌, ◌^◌, Bool, true, false, not, ◌&&◌, Option, none, some, List, [],
  ◌∷◌, ◌==◌, ltb, if◌then◌else◌, update,
}

abbrev pub mem_rw : ℕ
mem_rw = 0

abbrev pub mem_ro : ℕ
mem_ro = 1

abbrev pub mem_no : ℕ
mem_no = 2

abbrev pub uint_mod : ℕ
uint_mod = 2 ^ 32

-- `REGION_END`
abbrev pub region_end : ℕ
region_end = 2 ^ 32 - 1

-- `struct memregion`
pub record Memregion : Type 0 where
  pub from : ℕ
  pub to : ℕ
  pub mode : ℕ

-- the variables of `get_mem_layout` that survive a round of its loop, and the array
pub record Layout : Type 0 where
  pub curr_index : ℕ
  pub region_from : ℕ
  pub curr_region_mode : ℕ
  pub regions : ℕ → Memregion

module _ (readable writable : ℕ → Bool) where
  -- the attempts to read and to write the first byte of a page
  unfoldable pub check_page : ℕ → ℕ
  check_page curr_add =
      if readable curr_add then (if writable curr_add then mem_rw else mem_ro) else mem_no

  -- the end of a round, from the comparison of the modes on
  unfoldable pub visit : (size curr_add check_val : ℕ) → Layout → Layout
  visit size curr_add check_val s =
      if check_val == s.curr_region_mode
      then s
      else if ltb s.curr_index size
      then record {
        curr_index = s.curr_index + 1;
        region_from = curr_add;
        curr_region_mode = check_val;
        regions =
            update s.regions s.curr_index
              (record { from = s.region_from; to = curr_add; mode = s.curr_region_mode });
      }
      else record s { region_from = curr_add; curr_region_mode = check_val }

  -- the loop over the pages, with rounds as fuel; `none` when they run out
  pub scan : (page_size size rounds curr_add : ℕ) (is_first_loop : Bool) → Layout → Option Layout
  scan page_size size zero curr_add is_first_loop s = none
  scan page_size size (suc rounds) curr_add is_first_loop s =
      let rest =
        scan page_size size rounds ((curr_add + page_size) % uint_mod)
          (if ltb curr_add page_size then false else is_first_loop)
          (visit size curr_add (check_page curr_add) s) in
      if ltb curr_add region_end
      then (if ltb curr_add page_size && not is_first_loop then some s else rest)
      else some s

  -- the last region, and the result
  unfoldable pub finish : ℕ → Layout → ℕ × (ℕ → Memregion)
  finish size s = (
    s.curr_index + 1,
    if ltb s.curr_index size
        then update s.regions s.curr_index
            (record { from = s.region_from; to = region_end; mode = s.curr_region_mode })
        else s.regions,
  )

  unfoldable pub get_mem_layout :
      (page_size size rounds : ℕ) → (ℕ → Memregion) → Option (ℕ × (ℕ → Memregion))
  unfolding scan finish
  get_mem_layout page_size size rounds regions =
      elim (scan page_size size rounds 0 true (record {
        curr_index = 0;
        region_from = 0;
        curr_region_mode = mem_no;
        regions = regions;
      })) [ none ↦ none | some s ↦ some (finish size s) ]

-- "RW", "RO", "NO" and "Unknown"
unfoldable pub mode_to_string : ℕ → List ℕ
mode_to_string mode =
    if mode == mem_rw
    then 82 ∷ 87 ∷ []
    else if mode == mem_ro
    then 82 ∷ 79 ∷ []
    else if mode == mem_no
    then 78 ∷ 79 ∷ []
    else 85 ∷ 110 ∷ 107 ∷ 110 ∷ 111 ∷ 119 ∷ 110 ∷ []
