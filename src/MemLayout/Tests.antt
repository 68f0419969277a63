-- ===== src/MemLayout/Tests.antt =====
-- The scan of a concrete address space, and the theorem on it.
use c380_1code.Base.{
  least, ℕ, ◌≡◌, ◌==◌, if◌then◌else◌, map, [], none, refl, Bool, some, ltb, arith,
}
use c380_1code.MemLayout.{Memregion, get_mem_layout}
use c380_1code.MemLayout.Print.{print_mem_layout, read_line, listed, print_mem_layout-read_line}
use c380_1code.MemLayout.Scan.{Finds, get_mem_layout_lem}

-- the first mebibyte can be read, and the first page can be written
abbrev low : ℕ → Bool
low address = ltb address 1048576

abbrev first_page : ℕ → Bool
first_page address = ltb address 4096

abbrev nothing : ℕ → Memregion
nothing _ = record { from = 0; to = 0; mode = 0 }

get_mem_layout_lem_example :
    (count : ℕ) × (found : ℕ → Memregion) × (get_mem_layout low first_page 4096 4 1048577 nothing
      ≡ some (count, found))
    × Finds low first_page 4096 (omega arith) 4 1048576 count found
get_mem_layout_lem_example =
    get_mem_layout_lem low first_page 4096 (omega arith) 4 1048577 1048576 nothing (omega arith)
      refl (omega arith)

-- two regions, of which one fits
abbrev two : ℕ → Memregion
two i =
    if i == 0
    then record { from = 0; to = 4096; mode = 1 }
    else record { from = 4096; to = 4294967295; mode = 2 }

print_mem_layout-read_line_example :
    (map read_line (print_mem_layout (some two) 2 3) ≡ map some (listed (least 2 3) 0 two))
    × (print_mem_layout none 2 3 ≡ [])
print_mem_layout-read_line_example =
    print_mem_layout-read_line two 2 3 (λ i small known. ground (arith, small, known))
