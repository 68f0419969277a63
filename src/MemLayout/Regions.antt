-- ===== src/MemLayout/Regions.antt =====
-- What the layout says after some pages of the scan, and one round of it.
use native.Mathlib.Nat.{mul-lt-mul_of_pos_right}
use mathlib.Core.Path.{subst}
use native.Mathlib.Numerals.{add-one}
use c380_1code.Base.{
  ℕ, zero, suc, ◌≢◌, ◌∙◌, sym, if◌then◌else◌, least, ◌+◌, ◌*◌, ◌≤◌, ◌<◌, ◌≡◌, refl, ap, Bool, true,
  false, inl, inr, Bool-cases, ◌==◌, ltb, update, arith,
}
use c380_1code.MemLayout.{mem_no, Memregion, Layout, check_page, visit}

-- As the code writes it, `to` is the first address behind the region, but for the last region.
abbrev pub Covers : Memregion → ℕ → Type 0
Covers r address = (r.from ≤ address) × (address < r.to)

-- the second region starts where the first one ends, and has another mode
abbrev pub Joins : Memregion → Memregion → Type 0
Joins r r' = (r.to ≡ r'.from) × (r.mode ≢ r'.mode)

page-lt : (p j k : ℕ) → 0 < p → j * p < k * p → j < k
page-lt p j k pos h = elim (Bool-cases (ltb j k)) [
  | inl less ↦ ground arith
  | inr e ↦ elim (Bool-cases (k == j)) [
    | inl same ↦ let e : k ≡ j = ground arith in absurd (omega (arith, ap (λ x. x * p) e))
    | inr ne ↦
        let more : k < j = ground arith in
        absurd (omega (arith, h, mul-lt-mul_of_pos_right {m = k} {n = j} {k = p} more pos))
  ]
]

page-eq : (p j k : ℕ) → 0 < p → k * p ≤ j * p → j < k + 1 → j ≡ k
page-eq p j k pos h l = elim (Bool-cases (ltb j k)) [
  | inl less ↦
      let below : j < k = ground arith in
      absurd (omega (arith, h, mul-lt-mul_of_pos_right {m = j} {n = k} {k = p} below pos))
  | inr e ↦ ground (arith, l)
]

-- the array after one more region is closed
abbrev pub closed_regions : ℕ → Layout → ℕ → Memregion
closed_regions to s =
    update s.regions s.curr_index
      (record { from = s.region_from; to = to; mode = s.curr_region_mode })

module _ (readable writable : ℕ → Bool) (page_size : ℕ) (pos : 0 < page_size) where
  -- the mode of the page before the page `k`, MEM_NO before the first one
  unfoldable pub mode_before : ℕ → ℕ
  mode_before zero = mem_no
  mode_before (suc k) = check_page readable writable (k * page_size)

  -- how many of the first `k` pages have another mode than the page before
  unfoldable pub changes : ℕ → ℕ
  unfolding mode_before
  changes zero = 0
  changes (suc k) =
      let rest = changes k in
      if check_page readable writable (k * page_size) == mode_before k then rest else rest + 1

  -- After `k` pages: the closed regions have the modes of the pages in them, so has the open one,
  -- and as long as the array is not full no page is left out.
  pub record Describes (size k : ℕ) (s : Layout) : Type 0 where
    pub fits : s.curr_index ≤ size
    pub reached : s.region_from ≤ k * page_size
    pub current :
        (j : ℕ)
        → j < k
        → s.region_from ≤ j * page_size
        → check_page readable writable (j * page_size) ≡ s.curr_region_mode
    pub ended : (i : ℕ) → i < s.curr_index → (s.regions i).to ≤ s.region_from
    pub closed :
        (i j : ℕ)
        → i < s.curr_index
        → j < k
        → Covers (s.regions i) (j * page_size)
        → check_page readable writable (j * page_size) ≡ (s.regions i).mode
    pub found :
        (j : ℕ)
        → s.curr_index < size
        → j < k
        → j * page_size < s.region_from
        → (i : ℕ) × (i < s.curr_index) × Covers (s.regions i) (j * page_size)
    pub counted : s.curr_index ≡ least (changes k) size
    pub latest : s.curr_region_mode ≡ mode_before k
    pub joined : (i : ℕ) → i + 1 < s.curr_index → Joins (s.regions i) (s.regions (i + 1))
    pub open_joined :
        (i : ℕ)
        → s.curr_index < size
        → i + 1 ≡ s.curr_index
        → ((s.regions i).to ≡ s.region_from) × ((s.regions i).mode ≢ s.curr_region_mode)
    pub origin : s.curr_index < size → s.curr_index ≡ 0 → s.region_from ≡ 0
    pub first : 0 < s.curr_index → (s.regions 0).from ≡ 0

  changes-same :
      (k : ℕ)
      → check_page readable writable (k * page_size) ≡ mode_before k
      → changes (k + 1) ≡ changes k
  unfolding changes
  changes-same k e =
      let same : (check_page readable writable (k * page_size) == mode_before k) ≡ true =
        ground (arith, e) in
      rw (add-one, changes, same) refl

  changes-new :
      (k : ℕ)
      → check_page readable writable (k * page_size) ≢ mode_before k
      → changes (k + 1) ≡ changes k + 1
  unfolding changes
  changes-new k ne =
      let other : (check_page readable writable (k * page_size) == mode_before k) ≡ false =
        ground (arith, ne) in
      rw (add-one, changes, other) refl

  mode_before-next : (k : ℕ) → check_page readable writable (k * page_size) ≡ mode_before (k + 1)
  unfolding mode_before
  mode_before-next k = rw (add-one, mode_before) refl

  -- a page of a round before
  pub before : (j k : ℕ) → j * page_size < k * page_size → j < k
  before j k = page-lt page_size j k pos

  pub next-page : (k : ℕ) → (k + 1) * page_size ≡ k * page_size + page_size
  next-page k = omega arith

  same-Describes :
      (size k : ℕ) (s : Layout)
      → Describes size k s
      → check_page readable writable (k * page_size) ≡ s.curr_region_mode
      → Describes size (k + 1) s
  same-Describes size k s h e = record {
    fits = h.fits;
    reached = omega (arith, h.reached, next-page k);
    current = λ j l le. elim (Bool-cases (ltb j k)) [
      | inl old ↦ h.current j (ground arith) le
      | inr new ↦ let at : j ≡ k = ground (arith, l) in rw at e
    ];
    ended = h.ended;
    closed =
        λ i j il l c. h.closed i j il (before j k (omega (arith, c.1, h.ended i il, h.reached))) c;
    found = λ j free l lt. h.found j free (before j k (omega (arith, lt, h.reached))) lt;
    counted = rw (changes-same k (e ∙ h.latest)) h.counted;
    latest = sym e ∙ mode_before-next k;
    joined = h.joined;
    open_joined = h.open_joined;
    origin = h.origin;
    first = h.first;
  }

  full-Describes :
      (size k : ℕ) (s : Layout)
      → Describes size k s
      → size ≤ s.curr_index
      → check_page readable writable (k * page_size) ≢ s.curr_region_mode
      → Describes size (k + 1) (record s {
        region_from = k * page_size;
        curr_region_mode = check_page readable writable (k * page_size);
      })
  full-Describes size k s h full ne = record {
    fits = h.fits;
    reached = omega (arith, next-page k);
    current = λ j l le. let at = page-eq page_size j k pos le l in rw at refl;
    ended = λ i il. omega (arith, h.ended i il, h.reached);
    closed =
        λ i j il l c. h.closed i j il (before j k (omega (arith, c.1, h.ended i il, h.reached))) c;
    found = λ j free l lt. absurd (omega (arith, free, full));
    counted =
        let more = changes-new k (λ e. ne (e ∙ sym h.latest)) in
        ground (arith, h.counted, full, more);
    latest = mode_before-next k;
    joined = h.joined;
    open_joined = λ i free last. absurd (omega (arith, free, full));
    origin = λ free empty. absurd (omega (arith, free, full));
    first = h.first;
  }

  closed-last :
      (to : ℕ) (s : Layout)
      → closed_regions to s s.curr_index
        ≡ record { from = s.region_from; to = to; mode = s.curr_region_mode }
  closed-last to s = let at : (s.curr_index == s.curr_index) ≡ true = ground arith in rw at refl

  closed-old : (to i : ℕ) (s : Layout) → i < s.curr_index → closed_regions to s i ≡ s.regions i
  closed-old to i s h = let out : (i == s.curr_index) ≡ false = ground arith in rw out refl

  -- the pages in the regions once the open region is closed at `to`
  pub closed-mode :
      (size k to : ℕ) (s : Layout)
      → Describes size k s
      → (i j : ℕ) → i < s.curr_index + 1
      → j < k
      → Covers (closed_regions to s i) (j * page_size)
      → check_page readable writable (j * page_size) ≡ (closed_regions to s i).mode
  closed-mode size k to s h i j il l c = elim (Bool-cases (i == s.curr_index)) [
    | inl e ↦ rw e (h.current j l (rw e at c.0))
    | inr e ↦ rw e (h.closed i j (ground (arith, il)) l (rw e at c))
  ]

  pub closed-found :
      (size k to : ℕ) (s : Layout)
      → Describes size k s
      → s.curr_index < size
      → (j : ℕ) → j < k
      → j * page_size < to
      → (i : ℕ) × (i < s.curr_index + 1) × Covers (closed_regions to s i) (j * page_size)
  closed-found size k to s h free j l lt = elim (Bool-cases (ltb (j * page_size) s.region_from)) [
    | inl old ↦
        let (i, il, c) = h.found j free l (ground arith) in
        (i, omega (arith, il), rw (closed-old to i s il) c)
    | inr new ↦ (s.curr_index, omega arith, rw (closed-last to s) (ground arith, lt))
  ]

  -- so are the neighbours, wherever the open region is closed
  pub closed-joined :
      (size k to : ℕ) (s : Layout)
      → Describes size k s
      → s.curr_index < size
      → (i : ℕ) → i + 1 < s.curr_index + 1
      → Joins (closed_regions to s i) (closed_regions to s (i + 1))
  closed-joined size k to s h free i il =
      let old = closed-old to i s (omega (arith, il)) in
      elim (Bool-cases ((i + 1) == s.curr_index)) [
        | inl e ↦
            let at : i + 1 ≡ s.curr_index = ground (arith, e) in
            rw (old, at, closed-last to s) (h.open_joined i free at)
        | inr e ↦
            let inside : i + 1 < s.curr_index = ground (arith, e, il) in
            rw (old, closed-old to (i + 1) s inside) (h.joined i inside)
      ]

  pub closed-first :
      (size k to : ℕ) (s : Layout)
      → Describes size k s
      → s.curr_index < size
      → (closed_regions to s 0).from ≡ 0
  closed-first size k to s h free = elim (Bool-cases (ltb 0 s.curr_index)) [
    | inl some_closed ↦
        let pos' : 0 < s.curr_index = ground (arith, some_closed) in
        rw (closed-old to 0 s pos') (h.first pos')
    | inr e ↦
        let at : s.curr_index ≡ 0 = ground (arith, e) in
        subst (λ i. (closed_regions to s i).from ≡ 0) at (rw (closed-last to s) (h.origin free at))
  ]

  closed-ended :
      (size k : ℕ) (s : Layout)
      → Describes size k s
      → (i : ℕ) → i < s.curr_index + 1
      → (closed_regions (k * page_size) s i).to ≤ k * page_size
  closed-ended size k s h i il = elim (Bool-cases (i == s.curr_index)) [
    | inl e ↦ rw e (omega arith)
    | inr e ↦ rw e (omega (arith, h.ended i (ground (arith, il)), h.reached))
  ]

  store-Describes :
      (size k : ℕ) (s : Layout)
      → Describes size k s
      → s.curr_index < size
      → check_page readable writable (k * page_size) ≢ s.curr_region_mode
      → Describes size (k + 1) (record {
        curr_index = s.curr_index + 1;
        region_from = k * page_size;
        curr_region_mode = check_page readable writable (k * page_size);
        regions = closed_regions (k * page_size) s;
      })
  store-Describes size k s h free ne = record {
    fits = omega (arith, free);
    reached = omega (arith, next-page k);
    current = λ j l le. let at = page-eq page_size j k pos le l in rw at refl;
    ended = closed-ended size k s h;
    closed = λ i j il l c.
        closed-mode size k (k * page_size) s h i j il
          (before j k (omega (arith, c.1, closed-ended size k s h i il))) c;
    found = λ j more l lt. closed-found size k (k * page_size) s h free j (before j k lt) lt;
    counted =
        let more = changes-new k (λ e. ne (e ∙ sym h.latest)) in
        ground (arith, h.counted, free, more);
    latest = mode_before-next k;
    joined = closed-joined size k (k * page_size) s h free;
    open_joined = λ i more last.
        let at : i ≡ s.curr_index = omega (arith, last) in
        rw (at, closed-last (k * page_size) s) (refl, λ e. ne (sym e));
    origin = λ more empty. absurd (omega (arith, empty));
    first = λ some_closed. closed-first size k (k * page_size) s h free;
  }

  pub visit-Describes :
      (size k : ℕ) (s : Layout)
      → Describes size k s
      → Describes size (k + 1) (
          visit readable writable size
            (k * page_size)
            (check_page readable writable (k * page_size))
            s)
  unfolding visit
  visit-Describes size k s h =
      elim (Bool-cases (check_page readable writable (k * page_size) == s.curr_region_mode)) [
        | inl e ↦ rw e (same-Describes size k s h (ground arith))
        | inr e ↦ elim (Bool-cases (ltb s.curr_index size)) [
          | inl free ↦
              rw (e, free)
                (store-Describes size k s h (ground arith) (λ p. absurd (ground (arith, e, p))))
          | inr full ↦
              rw (e, full)
                (full-Describes size k s h (ground arith) (λ p. absurd (ground (arith, e, p))))
        ]
      ]
