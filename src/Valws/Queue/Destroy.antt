-- ===== src/Valws/Queue/Destroy.antt =====
-- `destroy_queue` frees the nodes of a queue, and nothing else.
use c380_1code.Base.{
  ℕ, zero, suc, ◌+◌, ◌<◌, ◌≡◌, refl, sym, ap, ◌∙◌, true, false, inl, inr, none, some, Bool-cases,
  [], ◌∷◌, ◌++◌, arith, ◌==◌, length, length-append, ull_mod,
}
use c380_1code.Valws.Common.{MemRef}
use c380_1code.Valws.Queue.{Queue, dequeue, destroy_loop, destroy_queue}
use c380_1code.Valws.Queue.Memory.{Heap, cell}
use c380_1code.Valws.Queue.Chain.{Cells, has, has-append, snoc-cases}
use c380_1code.Valws.Queue.Refinement.{Holds, Keeps, dequeue-Keeps}

-- the cells of the chain are freed
abbrev pub Frees : (h' : Heap) → Cells → Type 0
Frees h' cs = (x : ℕ) → has x cs ≡ true → cell x h' ≡ none

destroy_loop-done :
    (rounds : ℕ) (h : Heap) (q : Queue) → q.size ≡ 0 → destroy_loop (suc rounds) h q ≡ some h
unfolding destroy_loop
destroy_loop-done rounds h q e = rw e refl

destroy_loop-round :
    (rounds : ℕ) (h h' : Heap) (q q' : Queue) (v : MemRef)
    → (q.size == 0) ≡ false
    → dequeue h q ≡ some (v, h', q')
    → destroy_loop (suc rounds) h q ≡ destroy_loop rounds h' q'
unfolding destroy_loop
destroy_loop-round rounds h h' q q' v more e = rw (more, e) refl

-- the last cell is freed, then those before it
Frees-snoc :
    (h1 h' : Heap) (p : ℕ) (v : MemRef) (ds : Cells)
    → cell p h1 ≡ none
    → Frees h' ds
    → Keeps h1 h' ds
    → Frees h' (ds ++ (p, v) ∷ [])
Frees-snoc h1 h' p v ds freed frees kept x i = elim (Bool-cases (has x ds)) [
  | inl inside ↦ frees x inside
  | inr outside ↦
      let same : p ≡ x = ground (arith, has-append x ds ((p, v) ∷ []), i, outside) in
      kept x outside ∙ rw (sym same) freed
]

Keeps-snoc :
    (h h1 h' : Heap) (p : ℕ) (v : MemRef) (ds : Cells)
    → Keeps h h1 (ds ++ (p, v) ∷ [])
    → Keeps h1 h' ds
    → Keeps h h' (ds ++ (p, v) ∷ [])
Keeps-snoc h h1 h' p v ds keeps kept x out =
    kept x (ground (arith, has-append x ds ((p, v) ∷ []), out)) ∙ keeps x out

destroy_loop-Frees :
    (rounds : ℕ) (h : Heap) (q : Queue) (cs : Cells)
    → length cs < rounds
    → length cs < ull_mod
    → Holds h q cs
    → (h' : Heap) × (destroy_loop rounds h q ≡ some h') × Frees h' cs × Keeps h h' cs
destroy_loop-Frees zero h q cs fuel room holds = absurd (omega (arith, fuel))
destroy_loop-Frees (suc rounds) h q cs fuel room holds = elim (snoc-cases cs) [
  | inl e ↦
      let empty : q.size ≡ 0 = holds.counted ∙ ap length e in
      (
        h,
        destroy_loop-done rounds h q empty,
        rw e (λ x i. absurd (ground (arith, i))),
        λ x out. refl,
      )
  | inr (ds, p, v, e) ↦
      let size = length-append ds ((p, v) ∷ []) in
      let all = ap length e in
      let (h1, q1, got, holds1, freed, keeps) =
        dequeue-Keeps h q p v ds (omega (arith, room, all, size)) (rw e at holds) in
      let (h', rest, frees, kept) =
        destroy_loop-Frees rounds h1 q1 ds (omega (arith, fuel, all, size))
          (omega (arith, room, all, size)) holds1 in
      (
        h',
        destroy_loop-round rounds h h1 q q1 v (ground (arith, holds.counted, all, size)) got ∙ rest,
        rw e (Frees-snoc h1 h' p v ds freed frees kept),
        rw e (Keeps-snoc h h1 h' p v ds keeps kept),
      )
]

-- On a queue that stands for fewer than 2 ^ 64 cells, `destroy_queue` ends after as many calls of
-- `dequeue` as there are cells and never uses a bad pointer; it frees the node of each cell and
-- leaves all other nodes of the heap as they were. For NULL it changes nothing.
pub destroy_queue-Frees :
    (h : Heap) (q : Queue) (cs : Cells)
    → length cs < ull_mod
    → Holds h q cs
    → ((h' : Heap) × (destroy_queue (length cs + 1) h (some q) ≡ some h')
        × ((x : ℕ) → has x cs ≡ true → cell x h' ≡ none)
        × ((x : ℕ) → has x cs ≡ false → cell x h' ≡ cell x h))
      × ((rounds : ℕ) → destroy_queue rounds h none ≡ some h)
unfolding destroy_queue
destroy_queue-Frees h q cs room holds =
    (destroy_loop-Frees (length cs + 1) h q cs (omega arith) room holds, λ rounds. refl)
