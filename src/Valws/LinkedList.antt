-- ===== src/Valws/LinkedList.antt =====
-- Assignment03/linkedlist.h and linkedlist.c. The nodes are a list, head first; a node that the C
-- code reaches through a pointer from `sll_find` is reached through its key.
pub mod Contents
pub mod Operations
use c380_1code.Base.{ℕ, Option, none, some, List, [], ◌∷◌, ◌==◌, if◌then◌else◌, inc, dec}
use c380_1code.Valws.Common.{KeyValue}

pub record LinkedList : Type 0 where
  pub count : ℕ
  pub nodes : List KeyValue

unfoldable pub new_linked_list : LinkedList
new_linked_list = record { count = 0; nodes = [] }

-- the walk of `sll_find`
pub find_node : ℕ → List KeyValue → Option KeyValue
find_node k [] = none
find_node k (n ∷ ns) = if n.key == k then some n else find_node k ns

unfoldable pub sll_find : LinkedList → ℕ → Option KeyValue
unfolding find_node
sll_find l k = find_node k l.nodes

unfoldable pub sll_put_key_value : LinkedList → KeyValue → LinkedList
sll_put_key_value l kv = record { count = inc l.count; nodes = kv ∷ l.nodes }

unfoldable pub sll_insert : LinkedList → ℕ → LinkedList
unfolding sll_put_key_value
sll_insert l k = sll_put_key_value l (record { key = k; value = 1 })

-- `node->key_value.value++` at the first node that has the key
pub bump : ℕ → List KeyValue → List KeyValue
bump k [] = []
bump k (n ∷ ns) = if n.key == k then record n { value = inc n.value } ∷ ns else n ∷ bump k ns

unfoldable pub sll_add : LinkedList → ℕ → LinkedList
unfolding sll_find bump sll_insert
sll_add l k = elim (sll_find l k) [
  | some n ↦ record l { nodes = bump k l.nodes }
  | none ↦ sll_insert l k
]

abbrev pub push_front : KeyValue → LinkedList → LinkedList
push_front n l = record l { nodes = n ∷ l.nodes }

-- The walk of `sll_remove` with the deletion by `sll_delete`; `c` is the list's count, and the
-- nodes that were passed are put back in front.
pub remove_walk : ℕ → ℕ → List KeyValue → LinkedList
remove_walk k c [] = record { count = c; nodes = [] }
remove_walk k c (n ∷ ns) =
    if n.key == k
    then (if dec n.value == 0
        then record { count = dec c; nodes = ns }
        else record { count = c; nodes = record n { value = dec n.value } ∷ ns })
    else push_front n (remove_walk k c ns)

unfoldable pub sll_remove : LinkedList → ℕ → LinkedList
unfolding remove_walk
sll_remove l k = remove_walk k l.count l.nodes

-- `sll_delete` at the head
unfoldable pub sll_delete_head : LinkedList → List KeyValue → LinkedList
sll_delete_head l rest = record { count = dec l.count; nodes = rest }

-- The head leaves the list. Both `sll_delete` and `sll_pop` itself lower the count.
pub pop_nodes : LinkedList → List KeyValue → Option (KeyValue × LinkedList)
unfolding sll_delete_head
pop_nodes l [] = none
pop_nodes l (n ∷ ns) = let l' = sll_delete_head l ns in some (n, record l' { count = dec l'.count })

unfoldable pub sll_pop : LinkedList → Option (KeyValue × LinkedList)
unfolding pop_nodes
sll_pop l = pop_nodes l l.nodes
