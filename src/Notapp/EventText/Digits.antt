-- ===== src/Notapp/EventText/Digits.antt =====
-- The digits of a number: how many there are, and that they show it.
use native.Mathlib.Nat.{pow-suc}
use c380_1code.Base.{
  ℕ, zero, suc, ◌+◌, ◌-◌, ◌*◌, ◌/◌, ◌%◌, ◌^◌, ◌≤◌, ◌<◌, ◌≡◌, refl, ap, inl, inr, Bool-cases, [],
  ◌∷◌, ◌++◌, ltb, length, length-append, arith,
}
use c380_1code.Notapp.Args.{Str}
use c380_1code.Notapp.EventText.{digits, decimal, zeros, decimal6}

pub length-digits : (n v : ℕ) → length (digits n v) ≤ n
unfolding digits
length-digits zero v = omega arith
length-digits (suc n) v = elim (Bool-cases (ltb v 10)) [
  | inl one ↦ rw one (omega arith)
  | inr more ↦
      let rest = length-digits n (v / 10) in
      let sum = length-append (digits n (v / 10)) ((48 + v % 10) ∷ []) in
      rw more (omega (arith, rest, sum))
]

length-zeros : (n : ℕ) → length (zeros n) ≡ n
unfolding zeros
length-zeros zero = refl
length-zeros (suc n) = ap suc (length-zeros n)

pub length-decimal6 : (v : ℕ) → length (decimal6 v) ≤ 20
unfolding decimal6
length-decimal6 v =
    let shown = length-digits 20 v in
    let sum = length-append (zeros (6 - length (decimal v))) (decimal v) in
    let zeros_length = length-zeros (6 - length (decimal v)) in
    omega (arith, shown, sum, zeros_length)

-- the number that a text of digits shows, behind one that has been read
unfoldable pub value : ℕ → Str → ℕ
value seen [] = seen
value seen (c ∷ s) = value (seen * 10 + (c - 48)) s

value-append : (s t : Str) (seen : ℕ) → value seen (s ++ t) ≡ value (value seen s) t
unfolding value
value-append [] t seen = refl
value-append (c ∷ s) t seen = value-append s t (seen * 10 + (c - 48))

value-digits : (n v : ℕ) → v < 10 ^ n → value 0 (digits n v) ≡ v
unfolding digits value
value-digits zero v h = omega (arith, h)
value-digits (suc n) v h = elim (Bool-cases (ltb v 10)) [
  | inl one ↦ rw one (omega (arith, h))
  | inr more ↦
      let power = pow-suc 10 n in
      let rest = value-digits n (v / 10) (omega (arith, h, power)) in
      rw (more, value-append (digits n (v / 10)) ((48 + v % 10) ∷ []) 0) (omega (arith, rest))
]

value-zeros : (n : ℕ) → value 0 (zeros n) ≡ 0
unfolding value zeros
value-zeros zero = refl
value-zeros (suc n) = value-zeros n

-- The digits of a number of 64 bits, with and without leading zeros, show the number, and those with
-- leading zeros are at least six.
value-decimal :
    (v : ℕ)
    → v < 2 ^ 64
    → (value 0 (decimal v) ≡ v) × (value 0 (decimal6 v) ≡ v) × (6 ≤ length (decimal6 v))
unfolding decimal6
value-decimal v h =
    let shown = value-digits 20 v (omega (arith, h)) in
    let padding = 6 - length (decimal v) in
    (
      shown,
      rw (value-append (zeros padding) (decimal v) 0, value-zeros padding) shown,
      omega (arith, length-append (zeros padding) (decimal v), length-zeros padding),
    )
