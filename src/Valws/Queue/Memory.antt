-- ===== src/Valws/Queue/Memory.antt =====
-- The memory that holds the nodes of the queue: a list of allocated cells, the latest first.
use c380_1code.Base.{
  ℕ, ◌≡◌, ◌≢◌, refl, false, Option, none, some, List, [], ◌∷◌, arith, ◌==◌, if◌then◌else◌,
}
use c380_1code.Valws.Common.{MemRef}

-- `struct queue_node`
pub record QueueNode : Type 0 where
  pub value : MemRef
  pub head : ℕ
  pub tail : ℕ

abbrev pub Heap : Type 0
Heap = List (ℕ × QueueNode)

unfoldable pub cell : ℕ → Heap → Option QueueNode
cell p [] = none
cell p ((q, n) ∷ h) = if q == p then some n else cell p h

-- a read through a pointer
unfoldable pub read : Heap → ℕ → Option QueueNode
unfolding cell
read h p = if p == 0 then none else cell p h

-- the cell at `p` with the node `n`
unfoldable pub write : Heap → ℕ → QueueNode → Heap
write h p n = (p, n) ∷ h

-- `malloc` has returned `p`, and the node there is `n`
unfoldable pub allocate : Heap → ℕ → QueueNode → Heap
unfolding write
allocate h p n = write h p n

unfoldable pub free : Heap → ℕ → Heap
free [] p = []
free ((q, n) ∷ h) p = if q == p then free h p else (q, n) ∷ free h p

pub cell-write :
    (h : Heap) (p q : ℕ) (n : QueueNode)
    → cell q (write h p n) ≡ (if p == q then some n else cell q h)
unfolding cell write
cell-write h p q n = refl

pub cell-free : (h : Heap) (p q : ℕ) → cell q (free h p) ≡ (if p == q then none else cell q h)
unfolding cell free
cell-free [] p q = ground arith
cell-free ((r, n) ∷ h) p q = ground (arith, cell-free h p q)

pub read-cell : (h : Heap) (p : ℕ) (n : QueueNode) → p ≢ 0 → cell p h ≡ some n → read h p ≡ some n
unfolding read
read-cell h p n ne e = ground arith

pub null-false : (p : ℕ) → p ≢ 0 → (p == 0) ≡ false
null-false p ne = ground arith

pub cell-write_ne :
    (h : Heap) (p q : ℕ) (n : QueueNode) → (p == q) ≡ false → cell q (write h p n) ≡ cell q h
cell-write_ne h p q n e = rw (cell-write, e) refl

pub cell-write_self : (h : Heap) (p : ℕ) (n : QueueNode) → cell p (write h p n) ≡ some n
cell-write_self h p n = rw cell-write (ground arith)
