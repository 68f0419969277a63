-- ===== src/Valws/Queue/Refinement.antt =====
-- The queue is a sequence of values, the newest first: `enqueue` adds at the front, `dequeue`
-- takes from the back.
use mathlib.Core.List.{append_assoc}
use c380_1code.Base.{
  ℕ, ◌+◌, ◌<◌, ◌≡◌, ◌≢◌, refl, sym, ap, ◌∙◌, false, inl, inr, none, some, List, [], ◌∷◌, ◌++◌,
  arith, ◌==◌, length, length-append, ull_mod, inc, dec,
}
use c380_1code.Valws.Common.{MemRef, new_mem_ref}
use c380_1code.Valws.Queue.{Queue, enqueue, dequeue, new_node, new_queue}
use c380_1code.Valws.Queue.Memory.{
  QueueNode, Heap, cell, write, allocate, free, cell-write, cell-free, cell-write_ne,
  cell-write_self, read-cell, null-false,
}
use c380_1code.Valws.Queue.Chain.{
  Cells, first, last, has, IsChain, frame, last-snoc, last-cell, second_last-cell, first-append,
  snoc-cases, unlink, has-append,
}

-- The queue stands for the cells `cs`.
pub record Holds (h : Heap) (q : Queue) (cs : Cells) : Type 0 where
  pub chain : IsChain h 0 cs
  pub at_head : q.head ≡ first cs
  pub at_tail : q.tail ≡ last 0 cs
  pub counted : q.size ≡ length cs

-- the values of the cells
abbrev pub values : Cells → List MemRef
values [] = []
values ((p, v) ∷ cs) = v ∷ values cs

pub new_queue-Holds : (h : Heap) → Holds h new_queue []
unfolding new_queue IsChain first last
new_queue-Holds h = record { chain = tt; at_head = refl; at_tail = refl; counted = refl }

cell-unused :
    (h : Heap) (above p : ℕ) (cs : Cells) → IsChain h above cs → cell p h ≡ none → has p cs ≡ false
unfolding IsChain
cell-unused h above p [] c e = refl
cell-unused h above p ((q, v) ∷ cs) (ne, here, out, rest) e =
    ground (arith, cell-unused h q p cs rest e)

-- On a queue that stands for the cells `cs`, at most 2 ^ 64 - 2 of them, `enqueue` with a node at a
-- pointer that is not NULL and not allocated returns, never uses a bad pointer, and leaves a queue
-- that stands for the new value in front of `cs`.
pub enqueue-Holds :
    (fresh : ℕ) (h : Heap) (q : Queue) (v : MemRef) (cs : Cells)
    → fresh ≢ 0
    → cell fresh h ≡ none
    → length cs + 1 < ull_mod
    → Holds h q cs
    → (h' : Heap) × (q' : Queue) × (enqueue fresh h q v ≡ some (h', q'))
      × Holds h' q' ((fresh, v) ∷ cs)
unfolding enqueue allocate IsChain first last
enqueue-Holds fresh h q v [] ne unused room holds = (
  write h fresh (new_node v),
  record { size = inc q.size; head = fresh; tail = fresh },
  rw holds.at_head refl,
  record {
    chain = (ne, unfold new_node in cell-write_self h fresh (new_node v), refl, tt);
    at_head = refl;
    at_tail = refl;
    counted = ground (arith, holds.counted);
  },
)
enqueue-Holds fresh h q v ((p, w) ∷ cs) ne unused room holds =
    let (not_null, here, out, rest) = holds.chain in
    let new = cell-unused h 0 fresh ((p, w) ∷ cs) holds.chain unused in
    let new_p : (p == fresh) ≡ false = ground arith in
    let new_p' : (fresh == p) ≡ false = ground arith in
    let old_node : QueueNode = record { value = w; head = fresh; tail = first cs } in
    let node : QueueNode = record { value = v; head = 0; tail = p } in
    let allocated = write h fresh (new_node v) in
    let linked = write allocated p old_node in
    let joined = write linked fresh node in
    let read_old =
      read-cell allocated p (record { value = w; head = 0; tail = first cs }) not_null
        (cell-write_ne h fresh p (new_node v) new_p' ∙ here) in
    let read_new =
      read-cell linked fresh (new_node v) ne
        (cell-write_ne allocated p fresh old_node new_p ∙ cell-write_self h fresh (new_node v)) in
    (
      joined,
      record { size = inc q.size; head = fresh; tail = q.tail },
      rw (holds.at_head, null-false p not_null, read_old, read_new) (unfold new_node in refl),
      record {
        chain = (
          ne,
          cell-write_self linked fresh node,
          new,
          (
            not_null,
            cell-write_ne linked fresh p node new_p' ∙ cell-write_self allocated p old_node,
            out,
            frame h joined p cs
                (λ r i. ground (
                  arith,
                  cell-write linked fresh r node,
                  cell-write allocated p r old_node,
                  cell-write h fresh r (new_node v),
                ))
                rest,
          ),
        );
        at_head = refl;
        at_tail = holds.at_tail;
        counted = ground (arith, holds.counted);
      },
    )

-- the end of `dequeue` frees the node
cell-freed : (h : Heap) (p : ℕ) → cell p (free h p) ≡ none
cell-freed h p = rw cell-free (ground arith)

-- the cells of the heap that are not in the chain have not changed
abbrev pub Keeps : (h h' : Heap) → Cells → Type 0
Keeps h h' cs = (x : ℕ) → has x cs ≡ false → cell x h' ≡ cell x h

dequeue-one :
    (h : Heap) (q : Queue) (p : ℕ) (v : MemRef)
    → Holds h q ((p, v) ∷ [])
    → (h' : Heap) × (q' : Queue) × (dequeue h q ≡ some (v, h', q'))
      × Holds h' q' []
      × (cell p h' ≡ none)
      × Keeps h h' ((p, v) ∷ [])
unfolding dequeue IsChain first last
dequeue-one h q p v holds =
    let (not_null, here, _, _) = holds.chain in
    let found = read-cell h p (record { value = v; head = 0; tail = 0 }) not_null here in
    (
      free h p,
      record { size = dec q.size; head = 0; tail = 0 },
      rw (holds.at_tail, holds.counted, null-false p not_null, found) refl,
      record { chain = tt; at_head = refl; at_tail = refl; counted = rw holds.counted refl },
      cell-freed h p,
      λ x out. ground (arith, cell-free h p x),
    )

dequeue-more :
    (h : Heap) (q : Queue) (p r : ℕ) (v w : MemRef) (cs : Cells)
    → length cs + 2 < ull_mod
    → Holds h q (cs ++ (r, w) ∷ (p, v) ∷ [])
    → (h' : Heap) × (q' : Queue) × (dequeue h q ≡ some (v, h', q'))
      × Holds h' q' (cs ++ (r, w) ∷ [])
      × (cell p h' ≡ none)
      × Keeps h h' (cs ++ (r, w) ∷ (p, v) ∷ [])
unfolding dequeue
dequeue-more h q p r v w cs room holds =
    let split = append_assoc cs ((r, w) ∷ []) ((p, v) ∷ []) in
    let (p_not_null, p_here, p_out) =
      last-cell h 0 p v (cs ++ (r, w) ∷ []) (rw split holds.chain) in
    let (r_not_null, r_here) = second_last-cell h 0 p r v w cs holds.chain in
    let p_node : cell p h ≡ some (record { value = v; head = r; tail = 0 }) =
      rw last-snoc at p_here in
    let at_tail : q.tail ≡ p =
      holds.at_tail ∙ (ap (last 0) (sym split) ∙ last-snoc 0 p v (cs ++ (r, w) ∷ [])) in
    let size = length-append cs ((r, w) ∷ (p, v) ∷ []) in
    let many : (q.size == 1) ≡ false = ground (arith, holds.counted) in
    let node : QueueNode = record { value = w; head = last 0 cs; tail = 0 } in
    (
      free (write h r node) p,
      record { size = dec q.size; head = q.head; tail = r },
      rw
          (
            at_tail,
            null-false p p_not_null,
            read-cell h p _ p_not_null p_node,
            many,
            read-cell h r _ r_not_null r_here,
          )
          refl,
      record {
        chain = unlink h 0 p r v w cs holds.chain;
        at_head = holds.at_head ∙ first-append cs r w ((p, v) ∷ []);
        at_tail = sym (last-snoc 0 r w cs);
        counted = omega (arith, holds.counted, size, length-append cs ((r, w) ∷ []));
      },
      cell-freed (write h r node) p,
      λ x out. ground (
        arith,
        cell-free (write h r node) p x,
        cell-write h r x node,
        has-append x cs ((r, w) ∷ (p, v) ∷ []),
      ),
    )

-- `dequeue` on a queue that is not empty, and the cells that it leaves alone
pub dequeue-Keeps :
    (h : Heap) (q : Queue) (p : ℕ) (v : MemRef) (cs : Cells)
    → length cs + 1 < ull_mod
    → Holds h q (cs ++ (p, v) ∷ [])
    → (h' : Heap) × (q' : Queue) × (dequeue h q ≡ some (v, h', q'))
      × Holds h' q' cs
      × (cell p h' ≡ none)
      × Keeps h h' (cs ++ (p, v) ∷ [])
dequeue-Keeps h q p v cs room holds = elim (snoc-cases cs) [
  | inl e ↦ rw e (dequeue-one h q p v (rw e at holds))
  | inr (ds, r, w, e) ↦
      rw (e, append_assoc ds ((r, w) ∷ []) ((p, v) ∷ []))
        (dequeue-more h q p r v w ds (omega (arith, ap length e, length-append ds ((r, w) ∷ [])))
          (rw (e, append_assoc) at holds))
]

-- On a queue that stands for the cells `cs` followed by the value `v` at `p`, at most 2 ^ 64 - 1 cells
-- in all, `dequeue` returns `v` and never uses a bad pointer; the queue stands for `cs`, and the node
-- at `p` is freed.
pub dequeue-Holds :
    (h : Heap) (q : Queue) (p : ℕ) (v : MemRef) (cs : Cells)
    → length cs + 1 < ull_mod
    → Holds h q (cs ++ (p, v) ∷ [])
    → (h' : Heap) × (q' : Queue) × (dequeue h q ≡ some (v, h', q'))
      × Holds h' q' cs
      × (cell p h' ≡ none)
dequeue-Holds h q p v cs room holds =
    let (h', q', e, holds', freed, keeps) = dequeue-Keeps h q p v cs room holds in
    (h', q', e, holds', freed)

-- On an empty queue `dequeue` returns the empty reference and changes nothing.
pub dequeue-empty : (h : Heap) (q : Queue) → Holds h q [] → dequeue h q ≡ some (new_mem_ref, h, q)
unfolding dequeue last
dequeue-empty h q holds = rw holds.at_tail refl
