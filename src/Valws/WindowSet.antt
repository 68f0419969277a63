-- ===== src/Valws/WindowSet.antt =====
-- Assignment03/windowset.h and windowset.c. The static variables are one record, with the heap of
-- the queue's nodes. `malloc` is not part of the repository: it is a parameter.
pub mod Pages
pub mod Loops
pub mod Insert
pub mod Crowd
pub mod Levels
pub mod Sliding
pub mod Run
pub mod Touched
use c380_1code.Base.{
  ℕ, zero, suc, ◌+◌, ◌-◌, ◌/◌, ◌%◌, ◌^◌, ◌≡◌, ◌≢◌, Option, none, some, ltb, if◌then◌else◌, ull_mod,
  ◌>>=◌,
}
use c380_1code.Valws.Common.{MemRef, get_power_of_two}
use c380_1code.Valws.Hashtable.{Table, new_hashtable, put, delete, count_of}
use c380_1code.Valws.Hashtable.Root.{levels}
use c380_1code.Valws.Queue.{Queue, new_queue, enqueue, dequeue}
use c380_1code.Valws.Queue.Memory.{Heap, cell}

pub record WindowSet : Type 0 where
  pub page_exponent : ℕ
  pub window_size : ℕ
  pub heap : Heap
  pub queue : Queue
  pub hashtable : Table

-- what the code relies on: the pointer is not NULL and not in use
pub record Allocator : Type 0 where
  pub malloc : Heap → ℕ
  pub not_null : (h : Heap) → malloc h ≢ 0
  pub unused : (h : Heap) → cell (malloc h) h ≡ none

-- The page size is positive, as the source assumes.
unfoldable pub initialize_window_set : Heap → (page_size window_size : ℕ) → Option WindowSet
initialize_window_set heap page_size window_size = do
  exponent ← get_power_of_two page_size
  hashtable ← new_hashtable
  some (record {
    page_exponent = exponent % 2 ^ 32;
    window_size = window_size;
    heap = heap;
    queue = new_queue;
    hashtable = hashtable;
  })

-- the loops of `windowset_put` and `windowset_delete`, on the rounds left
pub put_pages : ℕ → (address i : ℕ) → Table → Option Table
put_pages zero address i t = some t
put_pages (suc rounds) address i t =
    put levels t ((address + i) % ull_mod) >>= put_pages rounds address (i + 1)

pub delete_pages : ℕ → (address i : ℕ) → Table → Option Table
delete_pages zero address i t = some t
delete_pages (suc rounds) address i t =
    delete levels t ((address + i) % ull_mod) >>= delete_pages rounds address (i + 1)

unfoldable pub windowset_put : Table → MemRef → Option Table
unfolding put_pages
windowset_put t r = put_pages r.page_count r.address 0 t

unfoldable pub windowset_delete : Table → MemRef → Option Table
unfolding delete_pages
windowset_delete t r = delete_pages r.page_count r.address 0 t

-- the processed memory reference
unfoldable pub to_mem_ref : (page_exponent address page_size : ℕ) → MemRef
to_mem_ref page_exponent address page_size =
    let lower_address = address / 2 ^ page_exponent in
    let upper_address = (address + page_size + (ull_mod - 1)) % ull_mod / 2 ^ page_exponent in
    record {
      address = lower_address;
      page_count = (upper_address + ull_mod - lower_address + 1) % ull_mod;
    }

-- the end of `window_set_insert`: the oldest reference leaves a window that is too long
pub evict : WindowSet → Option WindowSet
evict w =
    if ltb w.window_size w.queue.size
    then (do
      (r, heap, queue) ← dequeue w.heap w.queue
      hashtable ← windowset_delete w.hashtable r
      some (record w { heap = heap; queue = queue; hashtable = hashtable }))
    else some w

-- a shift by an exponent of 64 or more is undefined; so is one by the `int` -1, which page size 0 has
unfoldable pub shifted_ref : (page_exponent address page_size : ℕ) → Option MemRef
unfolding to_mem_ref
shifted_ref page_exponent address page_size =
    if ltb page_exponent 64 then some (to_mem_ref page_exponent address page_size) else none

unfoldable pub window_set_insert :
    Allocator → WindowSet → (address page_size : ℕ) → Option WindowSet
unfolding evict
window_set_insert system w address page_size = do
  r ← shifted_ref w.page_exponent address page_size
  (heap, queue) ← enqueue (system.malloc w.heap) w.heap w.queue r
  hashtable ← windowset_put w.hashtable r
  evict (record w { heap = heap; queue = queue; hashtable = hashtable })

unfoldable pub get_window_set_size : WindowSet → ℕ
get_window_set_size w = count_of w.hashtable
