-- ===== src/Valws/LinkedList/Operations.antt =====
-- What `sll_put_key_value`, `sll_add`, `sll_remove` and `sll_pop` do to the contents of a list.
use c380_1code.Base.{
  ℕ, ◌+◌, ◌-◌, ◌%◌, ◌<◌, ◌≡◌, ◌≢◌, ◌⊎◌, refl, inl, inr, none, some, List, [], ◌∷◌, arith, ◌==◌,
  if◌then◌else◌, length, Option-cases, ull_mod, inc, dec,
}
use c380_1code.Valws.Common.{KeyValue}
use c380_1code.Valws.LinkedList.{
  LinkedList, find_node, bump, remove_walk, sll_find, sll_add, sll_insert, sll_put_key_value,
  sll_remove, sll_pop,
}
use c380_1code.Valws.LinkedList.Contents.{
  value_of, occ, present, IsProper, Writes, value_of-eq-zero, IsProper-tail, IsProper-head,
}

find_node-none : (k : ℕ) (ns : List KeyValue) → find_node k ns ≡ none → occ k ns ≡ 0
unfolding find_node occ
find_node-none k [] h = refl
find_node-none k (n ∷ ns) h = ground (arith, find_node-none k ns)

find_node-some :
    (k : ℕ) (ns : List KeyValue) (n : KeyValue) → find_node k ns ≡ some n → 0 < occ k ns
unfolding find_node occ
find_node-some k [] n h = absurd (cc)
find_node-some k (m ∷ ns) n h = ground (arith, find_node-some k ns n)

value_of-bump :
    (j k : ℕ) (ns : List KeyValue)
    → 0 < occ k ns
    → value_of j (bump k ns) ≡ (if j == k then inc (value_of k ns) else value_of j ns)
unfolding value_of occ bump
value_of-bump j k [] h = absurd (omega arith)
value_of-bump j k (n ∷ ns) h = ground (arith, value_of-bump j k ns)

occ-bump : (j k : ℕ) (ns : List KeyValue) → occ j (bump k ns) ≡ occ j ns
unfolding occ bump
occ-bump j k [] = refl
occ-bump j k (n ∷ ns) = ground (arith, occ-bump j k ns)

length-bump : (k : ℕ) (ns : List KeyValue) → length (bump k ns) ≡ length ns
unfolding bump
length-bump k [] = refl
length-bump k (n ∷ ns) = ground (arith, length-bump k ns)

pub sll_put_key_value-Writes :
    (l : LinkedList) (kv : KeyValue)
    → occ kv.key l.nodes ≡ 0
    → 0 < kv.value
    → Writes kv.key kv.value l (sll_put_key_value l kv)
unfolding sll_put_key_value value_of occ
sll_put_key_value-Writes l kv h pos = record {
  reads = λ j. ground arith;
  occurs = λ j. ground arith;
  sized = ground (arith, value_of-eq-zero kv.key l.nodes);
}

-- the two branches of `sll_add`
sll_add-cases :
    (l : LinkedList) (k : ℕ)
    → ((occ k l.nodes ≡ 0) × (sll_add l k ≡ sll_insert l k))
      ⊎ ((0 < occ k l.nodes) × (sll_add l k ≡ record l { nodes = bump k l.nodes }))
unfolding sll_add sll_find
sll_add-cases l k = elim (Option-cases (find_node k l.nodes)) [
  | inl e ↦ inl (find_node-none k l.nodes e, rw (e, sll_add))
  | inr (n, e) ↦ inr (find_node-some k l.nodes n e, rw (e, sll_add))
]

pub count-sll_add :
    (l : LinkedList) (k : ℕ)
    → IsProper l.nodes
    → (sll_add l k).count ≡ (if value_of k l.nodes == 0 then inc l.count else l.count)
unfolding sll_insert sll_put_key_value
count-sll_add l k h = elim (sll_add-cases l k) [
  | inl (absent, e) ↦ rw e (ground (arith, h.exact k))
  | inr (found, e) ↦ rw e (ground (arith, h.exact k))
]

-- On a proper list whose key `k` has room for one more reference, `sll_add` gives `k` one more
-- reference and leaves the other keys' values as they are; `k` then stands in one node, the other
-- keys stand where they stood, and the list is one node longer exactly if `k` is new.
pub sll_add-Writes :
    (l : LinkedList) (k : ℕ)
    → IsProper l.nodes
    → value_of k l.nodes + 1 < ull_mod
    → Writes k (value_of k l.nodes + 1) l (sll_add l k)
unfolding sll_insert
sll_add-Writes l k h lt = elim (sll_add-cases l k) [
  | inl (absent, e) ↦
      rw (e, value_of-eq-zero k l.nodes absent)
        (sll_put_key_value-Writes l (record { key = k; value = 1 }) absent (omega arith))
  | inr (found, e) ↦ rw e (record {
    reads = λ j. ground (arith, value_of-bump j k l.nodes);
    occurs = λ j. ground (arith, occ-bump j k l.nodes, h.exact k);
    sized = ground (arith, length-bump k l.nodes, h.exact k);
  })
]

dec-pos : (v : ℕ) → 0 < v → v < ull_mod → dec v ≡ v - 1
dec-pos v p q = omega arith

value_of-remove_walk :
    (j k c : ℕ) (ns : List KeyValue)
    → IsProper ns
    → value_of j (remove_walk k c ns).nodes ≡ (if j == k then value_of k ns - 1 else value_of j ns)
unfolding remove_walk value_of
value_of-remove_walk j k c [] h = ground arith
value_of-remove_walk j k c (n ∷ ns) h =
    let (none_left, pos, small) = IsProper-head n ns h in
    let tail = value_of-remove_walk j k c ns (IsProper-tail n ns h) in
    rw (dec-pos n.value pos small) (ground arith)

occ-remove_walk :
    (j k c : ℕ) (ns : List KeyValue)
    → IsProper ns
    → occ j (remove_walk k c ns).nodes ≡ (if j == k then present (value_of k ns - 1) else occ j ns)
unfolding remove_walk value_of occ
occ-remove_walk j k c [] h = ground arith
occ-remove_walk j k c (n ∷ ns) h =
    let (none_left, pos, small) = IsProper-head n ns h in
    let tail = occ-remove_walk j k c ns (IsProper-tail n ns h) in
    let once = (IsProper-tail n ns h).exact n.key in rw (dec-pos n.value pos small) (ground arith)

length-remove_walk :
    (k c : ℕ) (ns : List KeyValue)
    → IsProper ns
    → length (remove_walk k c ns).nodes + present (value_of k ns)
      ≡ length ns + present (value_of k ns - 1)
unfolding remove_walk value_of
length-remove_walk k c [] h = omega arith
length-remove_walk k c (n ∷ ns) h =
    let (none_left, pos, small) = IsProper-head n ns h in
    let tail = length-remove_walk k c ns (IsProper-tail n ns h) in
    rw (dec-pos n.value pos small) (ground arith)

count-remove_walk :
    (k c : ℕ) (ns : List KeyValue)
    → IsProper ns
    → (remove_walk k c ns).count ≡ (if value_of k ns == 1 then dec c else c)
unfolding remove_walk value_of
count-remove_walk k c [] h = refl
count-remove_walk k c (n ∷ ns) h =
    let (none_left, pos, small) = IsProper-head n ns h in
    let tail = count-remove_walk k c ns (IsProper-tail n ns h) in
    rw (dec-pos n.value pos small) (ground arith)

-- On a proper list `sll_remove` takes one reference from `k`, if it has any, and leaves the other
-- keys' values as they are; the node of `k` goes exactly with its last reference.
pub sll_remove-Writes :
    (l : LinkedList) (k : ℕ)
    → IsProper l.nodes
    → Writes k (value_of k l.nodes - 1) l (sll_remove l k)
unfolding sll_remove
sll_remove-Writes l k h = record {
  reads = λ j. value_of-remove_walk j k l.count l.nodes h;
  occurs = λ j. occ-remove_walk j k l.count l.nodes h;
  sized = length-remove_walk k l.count l.nodes h;
}

pub count-sll_remove :
    (l : LinkedList) (k : ℕ)
    → IsProper l.nodes
    → (sll_remove l k).count ≡ (if value_of k l.nodes == 1 then dec l.count else l.count)
unfolding sll_remove
count-sll_remove l k h = count-remove_walk k l.count l.nodes h

-- `sll_pop` takes the head off a list that is not empty and whose count is its length, and the count
-- it leaves is one too low, modulo 2 ^ 64: it is not the length of the list that is left.
pub sll_pop-miscounts :
    (n : KeyValue) (ns : List KeyValue)
    → length (n ∷ ns) < ull_mod
    → (l : LinkedList) × (sll_pop (record { count = length (n ∷ ns); nodes = n ∷ ns })
        ≡ some (n, l))
      × (l.nodes ≡ ns)
      × ((l.count + 1) % ull_mod ≡ length ns)
      × (l.count ≢ length l.nodes)
unfolding sll_pop
sll_pop-miscounts n ns h = (
  record { count = dec (dec (length (n ∷ ns))); nodes = ns },
  refl,
  refl,
  omega arith,
  omega arith,
)
