-- ===== src/Valws/Common/Power.antt =====
-- `get_power_of_two` is the binary logarithm, rounded down.
use native.Mathlib.Nat.{pow-suc}
use native.Mathlib.Decide.{ℕ_discrete}
use c380_1code.Base.{
  ℕ, zero, suc, ◌+◌, ◌-◌, ◌/◌, ◌^◌, ◌≤◌, ◌<◌, ◌≡◌, refl, ◌∙◌, ap, some, arith, ◌==◌, false, ull_mod,
  inc,
}
use c380_1code.Valws.Common.{power_loop, get_power_of_two}

power_loop-zero : (rounds exponent : ℕ) → power_loop (suc rounds) exponent 0 ≡ some exponent
unfolding power_loop
power_loop-zero rounds exponent = refl

power_loop-step :
    (rounds exponent v : ℕ)
    → 0 < v
    → power_loop (suc rounds) exponent v ≡ power_loop rounds (inc exponent) (v / 2)
unfolding power_loop
power_loop-step rounds exponent v h = let e : (v == 0) ≡ false = ground arith in rw e refl

-- from an exponent whose successor is `n` the loop adds the logarithm to `n`
power_loop_lem :
    (rounds k exponent n v : ℕ)
    → k < rounds
    → inc exponent ≡ n
    → n + k < ull_mod
    → 0 < v
    → v < 2 ^ k
    → (d : ℕ) × (power_loop rounds exponent v ≡ some (n + d))
      × (2 ^ d ≤ v)
      × (v < 2 ^ suc d)
      × (d < k)
power_loop_lem zero k exponent n v fuel e room pos lt = absurd (omega arith)
power_loop_lem (suc rounds) zero exponent n v fuel e room pos lt = absurd (omega arith)
power_loop_lem (suc zero) (suc k) exponent n v fuel e room pos lt = absurd (omega arith)
power_loop_lem (suc (suc rounds)) (suc k) exponent n v fuel e room pos lt = elim (ℕ_discrete v 1) [
  | yes one ↦ (
    0,
    power_loop-step (suc rounds) exponent v pos
        ∙ (rw (one, e) (power_loop-zero rounds n ∙ ap some (omega arith))),
    omega arith,
    omega arith,
    omega arith,
  )
  | no more ↦
      let half : v / 2 < 2 ^ k = omega (arith, pow-suc 2 k) in
      let (d, run, lo, hi, few) =
        power_loop_lem (suc rounds) k (inc exponent) (n + 1) (v / 2) (omega arith) (omega arith)
          (omega arith) (omega arith) half in
      (
        suc d,
        power_loop-step (suc rounds) exponent v pos ∙ (run ∙ ap some (omega arith)),
        omega (arith, pow-suc 2 d),
        omega (arith, pow-suc 2 (suc d)),
        omega arith,
      )
]

-- On every positive word the loop of `get_power_of_two` ends, and its result is the `e` below 64
-- with 2 ^ e ≤ value < 2 ^ (e + 1).
pub get_power_of_two-log :
    (value : ℕ)
    → 0 < value
    → value < ull_mod
    → (e : ℕ) × (get_power_of_two value ≡ some e) × (2 ^ e ≤ value) × (value < 2 ^ suc e) × (e < 64)
unfolding get_power_of_two
get_power_of_two-log value pos lt =
    let (d, run, lo, hi, few) =
      power_loop_lem 65 64 (ull_mod - 1) 0 value (omega arith) refl (omega arith) pos lt in
    (d, run ∙ ap some (omega arith), lo, hi, few)
