-- ===== src/Valws/WindowSet/Crowd.antt =====
-- How many distinct pages share their two last hexadecimal digits, which choose their bucket in the
-- second level of the hash table.
use c380_1code.Base.{
  ℕ, ◌+◌, ◌%◌, ◌≤◌, ◌<◌, ◌≡◌, refl, inl, inr, Bool-cases, List, [], ◌∷◌, arith, ◌==◌, if◌then◌else◌,
  length,
}
use c380_1code.Valws.Common.{KeyValue, split_size}
use c380_1code.Valws.LinkedList.Contents.{occ, value_of, present-le}
use c380_1code.Valws.Hashtable.Shallow.{IsSparse}
use c380_1code.Valws.WindowSet.Pages.{count}

-- the number of distinct pages that leave `r` modulo 256
unfoldable pub crowd : ℕ → List ℕ → ℕ
crowd r [] = 0
crowd r (x ∷ xs) = (if x % 256 == r then (if count x xs == 0 then 1 else 0) else 0) + crowd r xs

-- No more pages share their two last digits than a bucket's list holds.
abbrev pub IsUncrowded : List ℕ → Type 0
IsUncrowded xs = (r : ℕ) → crowd r xs ≤ split_size

-- the pairs with other keys
without : ℕ → List KeyValue → List KeyValue
without k [] = []
without k (n ∷ ns) = let rest = without k ns in if n.key == k then rest else n ∷ rest

length-without : (k : ℕ) (ns : List KeyValue) → length (without k ns) + occ k ns ≡ length ns
unfolding without occ
length-without k [] = refl
length-without k (n ∷ ns) = ground (arith, length-without k ns)

occ-without :
    (j k : ℕ) (ns : List KeyValue) → occ j (without k ns) ≡ (if j == k then 0 else occ j ns)
unfolding without occ
occ-without j k [] = ground arith
occ-without j k (n ∷ ns) = ground (arith, occ-without j k ns)

-- pairs with different keys that leave `r` are not more than the pages that do, if the keys are
-- among the pages
length-le-crowd :
    (r : ℕ) (xs : List ℕ) (ns : List KeyValue)
    → ((k : ℕ) → occ k ns ≤ 1)
    → ((k : ℕ) → 0 < occ k ns → (k % 256 ≡ r) × (0 < count k xs))
    → length ns ≤ crowd r xs
unfolding crowd count
length-le-crowd r [] [] once among = omega arith
length-le-crowd r [] (n ∷ ns) once among =
    let none_there = among n.key (unfold occ in ground arith) in
    absurd (omega (arith, none_there.1))
length-le-crowd r (x ∷ xs) ns once among = elim (Bool-cases (count x xs == 0)) [
  | inr again ↦
      let rest =
        length-le-crowd r xs ns once
          (λ k p. ((among k p).0, ground (arith, (among k p).1, again))) in
      ground (arith, rest, again)
  | inl last ↦
      let fewer = length-without x ns in
      let rest =
        length-le-crowd r xs (without x ns) (λ k. ground (arith, occ-without k x ns, once k))
          (λ k p.
            let here : 0 < occ k ns = ground (arith, occ-without k x ns, p) in
            ((among k here).0, ground (arith, occ-without k x ns, p, (among k here).1))) in
      let home : 0 < occ x ns → x % 256 ≡ r = λ p. (among x p).0 in
      ground (arith, rest, last, fewer, once x, home)
]

pub IsUncrowded-IsSparse : (xs : List ℕ) → IsUncrowded xs → IsSparse (λ k. count k xs)
IsUncrowded-IsSparse xs uncrowded r ns proper among =
    let few =
      length-le-crowd r xs ns (λ k. omega (arith, proper.exact k, present-le (value_of k ns)))
        among in
    omega (arith, few, uncrowded r)

pub crowd-le-length : (r : ℕ) (xs : List ℕ) → crowd r xs ≤ length xs
unfolding crowd
crowd-le-length r [] = omega arith
crowd-le-length r (x ∷ xs) = ground (arith, crowd-le-length r xs)
