-- ===== src/Valws/WindowSet/Touched.antt =====
-- The pages of a processed memory reference are those that its bytes lie in.
use native.Mathlib.Nat.{
  one-le-pow, div-le_self, le-div_iff_mul-le, div-lt_iff_lt-mul, div-mul-le_self, mul-div_cancel,
}
use c380_1code.Base.{
  ℕ, ◌+◌, ◌-◌, ◌*◌, ◌/◌, ◌%◌, ◌^◌, ◌≤◌, ◌<◌, ◌≡◌, ◌↔◌, refl, inl, inr, Bool-cases, ◌==◌, ull_mod,
  arith,
}
use c380_1code.Valws.WindowSet.{to_mem_ref}

module _ (exponent : ℕ) where
  unit-pos : 0 < 2 ^ exponent
  unit-pos = one-le-pow exponent 2 (omega arith)

  div_mono : (m n : ℕ) → m ≤ n → m / 2 ^ exponent ≤ n / 2 ^ exponent
  div_mono m n h =
      (le-div_iff_mul-le {k = 2 ^ exponent} {x = m / 2 ^ exponent} {y = n} unit-pos).1
        (omega (arith, h, div-mul-le_self m (2 ^ exponent)))

  -- without wrap-around the processed reference runs from the page of the first byte to that of the
  -- last one
  to_mem_ref-bounds :
      (address page_size : ℕ)
      → 0 < page_size
      → address + page_size < ull_mod
      → ((to_mem_ref exponent address page_size).address ≡ address / 2 ^ exponent)
        × ((to_mem_ref exponent address page_size).address
              + (to_mem_ref exponent address page_size).page_count
            ≡ (address + page_size - 1) / 2 ^ exponent + 1)
  unfolding to_mem_ref
  to_mem_ref-bounds address page_size some_byte room =
      let last : (address + page_size + (ull_mod - 1)) % ull_mod ≡ address + page_size - 1 =
        omega arith in
      let order = div_mono address (address + page_size - 1) (omega arith) in
      let small = div-le_self (address + page_size - 1) (2 ^ exponent) in
      (refl, rw last (omega (arith, order, small)))

  -- For a reference of at least one byte that does not reach the last byte of the address space, the
  -- pages from `address` on, `page_count` many, are exactly those in which one of its bytes lies.
  pub to_mem_ref-touched :
      (address page_size page : ℕ)
      → 0 < page_size
      → address + page_size < ull_mod
      → (((to_mem_ref exponent address page_size).address ≤ page)
          × (page
              < (to_mem_ref exponent address page_size).address
                + (to_mem_ref exponent address page_size).page_count))
        ↔ ((byte : ℕ) × (address ≤ byte)
            × (byte < address + page_size)
            × (byte / 2 ^ exponent ≡ page))
  to_mem_ref-touched address page_size page some_byte room =
      let (from, to) = to_mem_ref-bounds address page_size some_byte room in
      (
        λ (lo, hi). elim (Bool-cases (address / 2 ^ exponent == page)) [
          | inl e ↦ (address, omega arith, omega (arith, some_byte), ground arith)
          | inr ne ↦
              let more : address / 2 ^ exponent < page = ground (arith, lo, from) in
              let above =
                (div-lt_iff_lt-mul {k = 2 ^ exponent} {x = address} {y = page} unit-pos).0 more in
              let below =
                (le-div_iff_mul-le {k = 2 ^ exponent} {x = page} {y = address + page_size - 1}
                    unit-pos).0
                  (omega (arith, hi, to)) in
              (
                page * 2 ^ exponent,
                omega (arith, above),
                omega (arith, below, some_byte),
                mul-div_cancel page unit-pos,
              )
        ],
        λ (byte, lo, hi, e).
            let first = div_mono address byte lo in
            let last = div_mono byte (address + page_size - 1) (omega (arith, hi)) in
            (omega (arith, first, from, e), omega (arith, last, to, e)),
      )
