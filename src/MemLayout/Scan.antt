-- ===== src/MemLayout/Scan.antt =====
-- The regions that `get_mem_layout` finds, against the accessibility of the pages.
use native.Mathlib.Nat.{mul-le-mul_right, mod-eq_of_lt}
use c380_1code.Base.{
  least, ℕ, zero, suc, ◌+◌, ◌*◌, ◌%◌, ◌≤◌, ◌<◌, ◌≡◌, refl, sym, ap, ◌∙◌, Bool, true, false, inl,
  inr, Bool-cases, Option, none, some, ◌==◌, ltb, arith,
}
use c380_1code.MemLayout.{
  Memregion, Layout, check_page, visit, scan, finish, get_mem_layout, mem_no, uint_mod, region_end,
}
use c380_1code.MemLayout.Regions.{
  Covers, Joins, changes, mode_before, closed-joined, closed-first, Describes, next-page,
  closed_regions, closed-mode, closed-found, visit-Describes,
}

module _ (readable writable : ℕ → Bool) (page_size : ℕ) (pos : 0 < page_size) where
  -- a round on a page
  scan-step :
      (size rounds k : ℕ) (first_loop : Bool) (s : Layout)
      → k * page_size < region_end
      → first_loop ≡ (k == 0)
      → scan readable writable page_size size (suc rounds) (k * page_size) first_loop s
        ≡ scan readable writable page_size size rounds
            ((k * page_size + page_size) % uint_mod)
            false
            (visit readable writable size
              (k * page_size)
              (check_page readable writable (k * page_size))
              s)
  unfolding scan
  scan-step size rounds k first_loop s inside e =
      let go : ltb (k * page_size) region_end ≡ true = ground arith in
      elim (Bool-cases (k == 0)) [
        | inl first ↦
            let at : k ≡ 0 = ground arith in
            let start : ltb (k * page_size) page_size ≡ true =
              let zero_at : k * page_size ≡ 0 = rw at (omega arith) in ground arith in
            let first' : first_loop ≡ true = e ∙ first in rw (go, start, first') refl
        | inr later ↦
            let away : ltb (k * page_size) page_size ≡ false =
              let positive : 0 < k = ground arith in
              ground (arith, mul-le-mul_right {m = 1} {n = k} page_size positive) in
            let later' : first_loop ≡ false = e ∙ later in rw (go, away, later') refl
      ]

  -- the loop from the page `k` on, when `left` pages are left
  scan-Describes :
      (size left rounds k address : ℕ) (first_loop : Bool) (s : Layout)
      → 1 < page_size
      → 0 < k + left
      → (k + left) * page_size ≡ uint_mod
      → left < rounds
      → address ≡ k * page_size % uint_mod
      → first_loop ≡ (k == 0)
      → Describes readable writable page_size pos size k s
      → (s' : Layout) × (scan readable writable page_size size rounds address first_loop s
          ≡ some s')
        × Describes readable writable page_size pos size (k + left) s'
  unfolding scan
  scan-Describes size left zero k address first_loop s wide some_page sum enough at first h =
      absurd (omega arith)
  scan-Describes size zero (suc rounds) k address first_loop s wide some_page sum enough at first
        h =
      let none_left : k + 0 ≡ k = omega arith in
      let sum' : k * page_size ≡ uint_mod = rw none_left at sum in
      let back : address ≡ 0 = at ∙ rw sum' refl in
      let later : first_loop ≡ false = first ∙ ground arith in
      let here : ltb 0 page_size ≡ true = ground arith in
      (s, rw (back, later, here, scan) refl, let e : k + 0 ≡ k = omega arith in rw e h)
  scan-Describes size (suc left) (suc rounds) k address first_loop s wide some_page sum enough at
        first h =
      let fit : (k + 1) * page_size ≤ uint_mod =
        omega
          (arith, sum, mul-le-mul_right {m = k + 1} {n = k + suc left} page_size (omega arith)) in
      let here : address ≡ k * page_size =
        at ∙ mod-eq_of_lt (omega (arith, fit, next-page readable writable page_size pos k)) in
      let step =
        scan-step size rounds k first_loop s
          (omega (arith, fit, next-page readable writable page_size pos k, wide)) first in
      let e : k + 1 + left ≡ k + suc left = omega arith in
      let (s', run, h') =
        scan-Describes size left rounds (k + 1) ((k * page_size + page_size) % uint_mod) false _
          wide (omega arith) (rw e sum) (omega (arith, enough))
          (ap (λ x. x % uint_mod) (sym (next-page readable writable page_size pos k)))
          (ground arith) (visit-Describes readable writable page_size pos size k s h) in
      (s', rw here step ∙ run, rw e at h')

  -- the layout before the loop
  abbrev start : (ℕ → Memregion) → Layout
  start regions = record {
    curr_index = 0;
    region_from = 0;
    curr_region_mode = mem_no;
    regions = regions;
  }

  start-Describes :
      (size : ℕ) (regions : ℕ → Memregion)
      → Describes readable writable page_size pos size 0 (start regions)
  start-Describes size regions = record {
    fits = omega arith;
    reached = omega arith;
    current = λ j l le. absurd (omega (arith, l));
    ended = λ i il. absurd (omega (arith, il));
    closed = λ i j il l c. absurd (omega (arith, l));
    found = λ j free l lt. absurd (omega (arith, l));
    counted = unfold changes in ground arith;
    latest = unfold mode_before in refl;
    joined = λ i il. absurd (omega (arith, il));
    open_joined = λ i free last. absurd (omega (arith, last));
    origin = λ free empty. refl;
    first = λ some_closed. absurd (omega (arith, some_closed));
  }

  some-page : (pages : ℕ) → pages * page_size ≡ uint_mod → 0 < 0 + pages
  some-page zero sum = absurd (omega (arith, sum))
  some-page (suc pages) sum = omega arith

  -- the pages start below the end of the last region
  last-page :
      (pages j : ℕ)
      → 1 < page_size
      → pages * page_size ≡ uint_mod
      → j < pages
      → j * page_size < region_end
  last-page pages j wide sum l = omega (
    arith,
    sum,
    next-page readable writable page_size pos j,
    mul-le-mul_right {m = j + 1} {n = pages} page_size (omega (arith, l)),
  )

  -- what is said of the count and of the array
  pub record Finds (size pages count : ℕ) (found : ℕ → Memregion) : Type 0 where
    pub counted : count ≡ least (changes readable writable page_size pos pages) size + 1
    pub right :
        (i j : ℕ)
        → i < count
        → i < size
        → j < pages
        → Covers (found i) (j * page_size)
        → check_page readable writable (j * page_size) ≡ (found i).mode
    pub joined : (i : ℕ) → i + 1 < count → i + 1 < size → Joins (found i) (found (i + 1))
    pub first : 0 < size → (found 0).from ≡ 0
    pub last : (i : ℕ) → count ≤ size → i + 1 ≡ count → (found i).to ≡ region_end
    pub all :
        count ≤ size
        → (j : ℕ) → j < pages
        → (i : ℕ) × (i < count) × Covers (found i) (j * page_size)

  -- the result that is made of the variables after the loop
  finish-Finds :
      (size pages : ℕ) (s : Layout)
      → 1 < page_size
      → pages * page_size ≡ uint_mod
      → Describes readable writable page_size pos size pages s
      → (count : ℕ) × (found : ℕ → Memregion) × (finish readable writable size s ≡ (count, found))
        × Finds size pages count found
  unfolding finish
  finish-Finds size pages s wide sum h = elim (Bool-cases (ltb s.curr_index size)) [
    | inl free ↦
        let free' : s.curr_index < size = ground arith in
        (
          s.curr_index + 1,
          closed_regions region_end s,
          rw free refl,
          record {
            counted = ap (λ n. n + 1) h.counted;
            right = λ i j il room l c.
                closed-mode readable writable page_size pos size pages region_end s h i j il l c;
            joined = λ i il room.
                closed-joined readable writable page_size pos size pages region_end s h free' i il;
            first = λ some_room.
                closed-first readable writable page_size pos size pages region_end s h free';
            last = λ i fits e.
                let at : i ≡ s.curr_index = omega (arith, e) in
                let same : (s.curr_index == s.curr_index) ≡ true = ground arith in
                rw (at, same) refl;
            all = λ fits j l.
                closed-found readable writable page_size pos size pages region_end s h free' j l
                  (last-page pages j wide sum l);
          },
        )
    | inr full ↦
        let full' : size ≤ s.curr_index = ground arith in
        (
          s.curr_index + 1,
          s.regions,
          rw full refl,
          record {
            counted = ap (λ n. n + 1) h.counted;
            right = λ i j il room l c. h.closed i j (omega (arith, room, full')) l c;
            joined = λ i il room. h.joined i (omega (arith, room, full'));
            first = λ some_room. h.first (omega (arith, some_room, full'));
            last = λ i fits e. absurd (omega (arith, fits, full'));
            all = λ fits. absurd (omega (arith, fits, full'));
          },
        )
  ]

  -- For pages of at least two bytes that fill the address space exactly, with more rounds than
  -- pages, `get_mem_layout` returns. It returns one more than the number of pages that have another
  -- mode than the page before, MEM_NO before the first one, but at most one more than the size. Every
  -- page that starts in a region which it has written has the mode of that region. Each written
  -- region starts where the one before ends, and has another mode; the first one starts at 0. If the
  -- count is at most the size, the last one ends at 0xffffffff and every page starts in one of them.
  pub get_mem_layout_lem :
      (size rounds pages : ℕ) (regions : ℕ → Memregion)
      → 1 < page_size
      → pages * page_size ≡ uint_mod
      → pages < rounds
      → (count : ℕ) × (found : ℕ → Memregion) × (get_mem_layout readable writable page_size size
            rounds regions
          ≡ some (count, found))
        × Finds size pages count found
  unfolding get_mem_layout
  get_mem_layout_lem size rounds pages regions wide sum enough =
      let (s, run, h) =
        scan-Describes size pages rounds 0 0 true (start regions) wide (some-page pages sum)
          (omega (arith, sum)) enough (omega arith) refl (start-Describes size regions) in
      let e : 0 + pages ≡ pages = omega arith in
      let (count, found, made, finds) = finish-Finds size pages s wide sum (rw e at h) in
      (
        count,
        found,
        ap {B = Option (ℕ × (ℕ → Memregion))}
              (λ o. elim o [ none ↦ none | some t ↦ some (finish readable writable size t) ]) run
            ∙ ap some made,
        finds,
      )
