-- ===== src/Valws/Queue.antt =====
-- Assignment03/queue.h and queue.c: a doubly-linked list on an explicit heap. A pointer is a
-- number and NULL is 0; `none` is a fault, the use of a pointer that is NULL or not allocated.
-- `malloc` is not part of the repository: the pointer that it returns is an argument, `fresh`. The
-- message that `dequeue` prints on an empty queue is not modelled.
pub mod Memory
pub mod Chain
pub mod Refinement
pub mod Destroy
use c380_1code.Base.{ℕ, zero, suc, ◌+◌, Option, none, some, ◌==◌, if◌then◌else◌, inc, dec, ◌>>=◌}
use c380_1code.Valws.Common.{MemRef, new_mem_ref}
use c380_1code.Valws.Queue.Memory.{QueueNode, Heap, read, write, free, allocate}

pub record Queue : Type 0 where
  pub size : ℕ
  pub head : ℕ
  pub tail : ℕ

unfoldable pub new_queue : Queue
new_queue = record { size = 0; head = 0; tail = 0 }

-- `new_node` followed by `node->value = value`
unfoldable pub new_node : MemRef → QueueNode
new_node value = record { value = value; head = 0; tail = 0 }

unfoldable pub enqueue : (fresh : ℕ) → Heap → Queue → MemRef → Option (Heap × Queue)
enqueue fresh heap queue value =
    let allocated = allocate heap fresh (new_node value) in
    if queue.head == 0
    then some (allocated, record { size = inc queue.size; head = fresh; tail = fresh })
    else (do
      old ← read allocated queue.head
      let linked = write allocated queue.head (record old { head = fresh })
      node ← read linked fresh
      let joined = write linked fresh (record node { tail = queue.head })
      some (joined, record { size = inc queue.size; head = fresh; tail = queue.tail }))

-- the value, the heap and the queue after `dequeue`
unfoldable pub dequeue : Heap → Queue → Option (MemRef × Heap × Queue)
dequeue heap queue = if queue.tail == 0 then some (new_mem_ref, heap, queue) else (do
  node ← read heap queue.tail
  (heap', head', tail') ←
      (if queue.size == 1 then some (heap, 0, 0) else (do
        above ← read heap node.head
        some (write heap node.head (record above { tail = 0 }), queue.head, node.head)))
  some (
    node.value,
    free heap' queue.tail,
    record { size = dec queue.size; head = head'; tail = tail' },
  ))

-- `while (queue->size != 0) dequeue(queue);`, with the rounds as fuel
pub destroy_loop : ℕ → Heap → Queue → Option Heap
destroy_loop zero heap queue = none
destroy_loop (suc rounds) heap queue =
    let rest = dequeue heap queue >>= (λ (_, heap', queue'). destroy_loop rounds heap' queue') in
    if queue.size == 0 then some heap else rest

-- NULL is `none`; the queue's own record is not on the heap of the nodes
unfoldable pub destroy_queue : (rounds : ℕ) → Heap → Option Queue → Option Heap
unfolding destroy_loop
destroy_queue rounds heap none = some heap
destroy_queue rounds heap (some queue) = destroy_loop rounds heap queue
