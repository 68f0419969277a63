-- ===== src/Valws/Queue/Chain.antt =====
-- The nodes of a queue from its head to its tail, as a list of addresses and values.
use c380_1code.Base.{
  ℕ, ◌≡◌, ◌≢◌, refl, ◌∙◌, ◌⊎◌, inl, inr, Bool, true, false, ◌||◌, some, List, [], ◌∷◌, ◌++◌, arith,
  ◌==◌,
}
use c380_1code.Valws.Common.{MemRef}
use c380_1code.Valws.Queue.Memory.{QueueNode, Heap, cell, write, free, cell-write, cell-free}

abbrev pub Cells : Type 0
Cells = List (ℕ × MemRef)

-- the pointer to the first cell
unfoldable pub first : Cells → ℕ
first [] = 0
first ((p, v) ∷ cs) = p

-- the pointer to the last cell, or `above` if there is none
unfoldable pub last : ℕ → Cells → ℕ
last above [] = above
last above ((p, v) ∷ cs) = last p cs

abbrev pub has : ℕ → Cells → Bool
has p [] = false
has p ((q, v) ∷ cs) = (q == p) || has p cs

-- The cells are in the heap, distinct and not NULL, and linked in both directions; `above` is
-- the cell before them.
unfoldable pub IsChain : Heap → ℕ → Cells → Type 0
IsChain h above [] = Unit
IsChain h above ((p, v) ∷ cs) =
    (p ≢ 0)
    × (cell p h ≡ some (record { value = v; head = above; tail = first cs }))
    × (has p cs ≡ false)
    × IsChain h p cs

-- a chain survives changes to other cells
pub frame :
    (h g : Heap) (above : ℕ) (cs : Cells)
    → ((p : ℕ) → has p cs ≡ true → cell p g ≡ cell p h)
    → IsChain h above cs
    → IsChain g above cs
unfolding IsChain
frame h g above [] same c = tt
frame h g above ((p, v) ∷ cs) same (ne, here, out, rest) =
    (ne, same p (ground arith) ∙ here, out, frame h g p cs (λ q i. same q (ground arith)) rest)

pub has-append : (p : ℕ) (cs ds : Cells) → has p (cs ++ ds) ≡ (has p cs || has p ds)
has-append p [] ds = refl
has-append p ((q, v) ∷ cs) ds = rw (has-append p cs ds) (ground arith)

-- the address of the last cell, and what comes before it
pub last-snoc : (above p : ℕ) (v : MemRef) (cs : Cells) → last above (cs ++ (p, v) ∷ []) ≡ p
unfolding last
last-snoc above p v [] = refl
last-snoc above p v ((q, w) ∷ cs) = last-snoc q p v cs

pub last-cell :
    (h : Heap) (above p : ℕ) (v : MemRef) (cs : Cells)
    → IsChain h above (cs ++ (p, v) ∷ [])
    → (p ≢ 0)
      × (cell p h ≡ some (record { value = v; head = last above cs; tail = 0 }))
      × (has p cs ≡ false)
unfolding IsChain last first
last-cell h above p v [] (ne, here, out, rest) = (ne, here, refl)
last-cell h above p v ((q, w) ∷ cs) (ne, here, out, rest) =
    let (ne', here', out') = last-cell h q p v cs rest in
    (ne', here', ground (arith, has-append q cs ((p, v) ∷ [])))

pub first-append :
    (cs : Cells) (p : ℕ) (v : MemRef) (ds : Cells)
    → first (cs ++ (p, v) ∷ ds) ≡ first (cs ++ (p, v) ∷ [])
unfolding first
first-append [] p v ds = refl
first-append ((q, w) ∷ cs) p v ds = refl

pub second_last-cell :
    (h : Heap) (above p q : ℕ) (v w : MemRef) (cs : Cells)
    → IsChain h above (cs ++ (q, w) ∷ (p, v) ∷ [])
    → (q ≢ 0) × (cell q h ≡ some (record { value = w; head = last above cs; tail = p }))
unfolding IsChain last first
second_last-cell h above p q v w [] (ne, here, out, rest) = (ne, here)
second_last-cell h above p q v w ((r, u) ∷ cs) (ne, here, out, rest) =
    second_last-cell h r p q v w cs rest

-- a list is empty or has a last cell
pub snoc-cases :
    (cs : Cells) → (cs ≡ []) ⊎ ((ds : Cells) × (q : ℕ) × (w : MemRef) × (cs ≡ ds ++ (q, w) ∷ []))
snoc-cases [] = inl refl
snoc-cases ((p, v) ∷ cs) = elim (snoc-cases cs) [
  | inl e ↦ inr ([], p, v, rw e)
  | inr (ds, q, w, e) ↦ inr ((p, v) ∷ ds, q, w, rw e)
]

-- Unlinking and freeing the last of at least two cells leaves the chain of the others.
pub unlink :
    (h : Heap) (above p q : ℕ) (v w : MemRef) (cs : Cells)
    → IsChain h above (cs ++ (q, w) ∷ (p, v) ∷ [])
    → IsChain
        (free (write h q (record { value = w; head = last above cs; tail = 0 })) p)
        above
        (cs ++ (q, w) ∷ [])
unfolding IsChain last first
unlink h above p q v w [] (ne, here, out, rest) =
    let e = cell-free (write h q (record { value = w; head = above; tail = 0 })) p q in
    (
      ne,
      e ∙ ground (arith, cell-write h q q (record { value = w; head = above; tail = 0 })),
      refl,
      tt,
    )
unlink h above p q v w ((r, u) ∷ cs) (ne, here, out, rest) =
    let n : QueueNode = record { value = w; head = last r cs; tail = 0 } in
    let absent = has-append r cs ((q, w) ∷ (p, v) ∷ []) in
    (
      ne,
      cell-free (write h q n) p r
          ∙ ground (arith, cell-write h q r n, first-append cs q w ((p, v) ∷ [])),
      ground (arith, has-append r cs ((q, w) ∷ [])),
      unlink h r p q v w cs rest,
    )
