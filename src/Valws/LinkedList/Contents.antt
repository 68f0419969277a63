-- ===== src/Valws/LinkedList/Contents.antt =====
-- What a linked list holds: a value for each key, and how often a key occurs.
use c380_1code.Base.{
  ℕ, zero, suc, ◌+◌, ◌≤◌, ◌<◌, ◌≡◌, refl, List, [], ◌∷◌, arith, ◌==◌, if◌then◌else◌, length,
  ull_mod,
}
use c380_1code.Valws.Common.{KeyValue}
use c380_1code.Valws.LinkedList.{LinkedList}

-- the value of the first node with the key; 0 if there is none
unfoldable pub value_of : ℕ → List KeyValue → ℕ
value_of k [] = 0
value_of k (n ∷ ns) = if n.key == k then n.value else value_of k ns

unfoldable pub occ : ℕ → List KeyValue → ℕ
occ k [] = 0
occ k (n ∷ ns) = (if n.key == k then 1 else 0) + occ k ns

-- 1 for a positive value
abbrev pub present : ℕ → ℕ
present zero = 0
present (suc _) = 1

pub present-le : (x : ℕ) → present x ≤ 1
present-le zero = omega arith
present-le (suc x) = omega arith

-- A list without duplicates, whose values are positive words.
pub record IsProper (ns : List KeyValue) : Type 0 where
  pub exact : (k : ℕ) → occ k ns ≡ present (value_of k ns)
  pub small : (k : ℕ) → value_of k ns < ull_mod

-- `l'` is `l` but for the key `k`, which has the value `x`; `x = 0` stands for absence
pub record Writes (k x : ℕ) (l l' : LinkedList) : Type 0 where
  pub reads : (j : ℕ) → value_of j l'.nodes ≡ (if j == k then x else value_of j l.nodes)
  pub occurs : (j : ℕ) → occ j l'.nodes ≡ (if j == k then present x else occ j l.nodes)
  pub sized : length l'.nodes + present (value_of k l.nodes) ≡ length l.nodes + present x

pub value_of-eq-zero : (k : ℕ) (ns : List KeyValue) → occ k ns ≡ 0 → value_of k ns ≡ 0
unfolding value_of occ
value_of-eq-zero k [] h = refl
value_of-eq-zero k (n ∷ ns) h = ground (arith, value_of-eq-zero k ns)

pub IsProper-nil : IsProper []
unfolding value_of occ
IsProper-nil = record { exact = λ k. refl; small = λ k. omega arith }

pub IsProper-tail : (n : KeyValue) (ns : List KeyValue) → IsProper (n ∷ ns) → IsProper ns
unfolding value_of occ
IsProper-tail n ns h = record {
  exact = λ k. ground (arith, h.exact k, value_of-eq-zero k ns);
  small = λ k. ground (arith, h.small k, h.exact k, value_of-eq-zero k ns);
}

pub IsProper-head :
    (n : KeyValue) (ns : List KeyValue)
    → IsProper (n ∷ ns)
    → (value_of n.key ns ≡ 0) × (0 < n.value) × (n.value < ull_mod)
unfolding value_of occ
IsProper-head n ns h = ground (arith, h.exact n.key, h.small n.key, value_of-eq-zero n.key ns)

pub Writes-IsProper :
    {k x : ℕ} {l l' : LinkedList}
    → Writes k x l l'
    → x < ull_mod
    → IsProper l.nodes
    → IsProper l'.nodes
Writes-IsProper w lt h = record {
  exact = λ j. ground (arith, w.reads j, w.occurs j, h.exact j);
  small = λ j. ground (arith, w.reads j, h.small j);
}
