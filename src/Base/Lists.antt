-- ===== src/Base/Lists.antt =====
-- Lists measured by native numbers, and functions updated at one place.
use Prim.Native.Nat.{ℕ, zero, suc, ◌+◌, ◌≤◌, ◌<◌}
use mathlib.Core.Path.{◌≡◌, refl, sym}
use mathlib.Core.List.{List, [], ◌∷◌, ◌++◌}
use native.Mathlib.Decide.{ℕ_discrete}
use native.Mathlib.Numerals.{add-one}
use native.Mathlib.Omega.{arith}
use c380_1code.Base.Tests.{◌==◌, if◌then◌else◌}

module _ {ℓ} {A : Type ℓ} where
  abbrev pub length : List A → ℕ
  length [] = 0
  length (x ∷ xs) = suc (length xs)

  pub length-append : (xs ys : List A) → length (xs ++ ys) ≡ length xs + length ys
  length-append [] ys = omega arith
  length-append (x ∷ xs) ys = omega (arith, length-append xs ys)

  -- an array of which one cell is written
  abbrev pub update : (ℕ → A) → ℕ → A → ℕ → A
  update f i a j = if j == i then a else f j

-- every item of the list
abbrev pub All {ℓ κ} : {A : Type ℓ} → (A → Type κ) → List A → Type κ
All P [] = Unit
All P (x ∷ xs) = P x × All P xs

-- f 0 + … + f (n - 1)
unfoldable pub total : ℕ → (ℕ → ℕ) → ℕ
total zero f = 0
total (suc n) f = total n f + f n

pub total_congr : (n : ℕ) (f g : ℕ → ℕ) → ((i : ℕ) → i < n → f i ≡ g i) → total n f ≡ total n g
unfolding total
total_congr zero f g h = refl
total_congr (suc n) f g h =
    omega (arith, total_congr n f g (λ i l. h i (omega arith)), h n (omega arith))

-- two arrays that differ at one place
pub total-change :
    (n i : ℕ) (f g : ℕ → ℕ)
    → i < n
    → ((j : ℕ) → j < n → (j ≡ i → ⊥) → f j ≡ g j)
    → total n f + g i ≡ total n g + f i
unfolding total
total-change zero i f g h same = absurd (omega arith)
total-change (suc n) i f g h same = elim (ℕ_discrete i n) [
  | yes e ↦
      rw e (omega (arith, total_congr n f g (λ j l. same j (omega arith) (λ e'. omega arith))))
  | no ne ↦ omega (
    arith,
    total-change n i f g (omega arith) (λ j l. same j (omega arith)),
    same n (omega arith) (λ e'. ne (sym e')),
  )
]

total-zero : (n : ℕ) → total n (λ _. 0) ≡ 0
unfolding total
total-zero zero = refl
total-zero (suc n) = omega (arith, total-zero n)

-- a sum of which one term is not zero
pub total-only :
    (n i : ℕ) (f : ℕ → ℕ) → i < n → ((j : ℕ) → j < n → (j ≡ i → ⊥) → f j ≡ 0) → total n f ≡ f i
total-only n i f h zeros = omega (arith, total-change n i f (λ _. 0) h zeros, total-zero n)

-- f i + … + f (i + n - 1), from the front
unfoldable pub sum_from : ℕ → ℕ → (ℕ → ℕ) → ℕ
sum_from zero i f = 0
sum_from (suc n) i f = f i + sum_from n (i + 1) f

total-add : (n i k : ℕ) (f : ℕ → ℕ) → i + n ≡ k → total i f + sum_from n i f ≡ total k f
unfolding total sum_from
total-add zero i k f e = let e' : i ≡ k = omega arith in rw e' (omega arith)
total-add (suc n) i k f e =
    let next : total (i + 1) f ≡ total i f + f i = rw add-one refl in
    omega (arith, total-add n (i + 1) k f (omega arith), next)

pub sum_from-total : (n : ℕ) (f : ℕ → ℕ) → sum_from n 0 f ≡ total n f
unfolding total
sum_from-total n f = omega (arith, total-add n 0 n f (omega arith))

pub le-total : (n i : ℕ) (f : ℕ → ℕ) → i < n → f i ≤ total n f
unfolding total
le-total zero i f h = absurd (omega arith)
le-total (suc n) i f h = elim (ℕ_discrete i n) [
  | yes e ↦ rw e (omega arith)
  | no ne ↦ omega (arith, le-total n i f (omega arith))
]
