-- ===== src/Valws/Hashtable/Place.antt =====
-- Arithmetic of bucket indices: a key's index at a level is its next hexadecimal digit, so the
-- buckets on a path fix the key's remainder modulo a power of 16.
use mathlib.Core.Path.{ap₂}
use native.Mathlib.Nat.{
  div-add-mod, mod-lt, pow-suc, one-le-pow, mul-add-mod_self_left, mod-eq_of_lt, add-mul-div_left,
  div-eq_of_lt,
}
use c380_1code.Base.{ℕ, suc, ◌+◌, ◌*◌, ◌/◌, ◌%◌, ◌^◌, ◌≤◌, ◌<◌, ◌≡◌, ◌∙◌, ap, arith, ull_mod}

-- 16 ^ level, by the shift that the code uses
abbrev pub span : ℕ → ℕ
span level = 2 ^ (4 * level)

pub span-suc : (level : ℕ) → span (suc level) ≡ 16 * span level
span-suc level =
    let m = 4 * level in
    let four : 4 * suc level ≡ suc (suc (suc (suc m))) = omega arith in
    rw (four) (
      omega (
        arith,
        pow-suc 2 m,
        pow-suc 2 (suc m),
        pow-suc 2 (suc (suc m)),
        pow-suc 2 (suc (suc (suc m))),
      ))

pub span-pos : (level : ℕ) → 0 < span level
span-pos level = one-le-pow (4 * level) 2 (omega arith)

mul_digit : (m d : ℕ) → d < 16 → m * d ≤ 15 * m
mul_digit m d h = grind arith

digits_of : (k m : ℕ) → 0 < m → k % (16 * m) ≡ k % m + m * (k / m % 16)
digits_of k m h =
    let q = k / m in
    let below : k % m + m * (q % 16) < 16 * m =
      omega (arith, mul_digit m (q % 16) (omega arith), mod-lt k h) in
    let whole : k ≡ (16 * m) * (q / 16) + (k % m + m * (q % 16)) =
      omega (arith, div-add-mod k m, ap (λ (x : ℕ). m * x) (div-add-mod q 16)) in
    let same : k % (16 * m) ≡ (k % m + m * (q % 16)) % (16 * m) =
      ap (λ (x : ℕ). x % (16 * m)) whole ∙ mul-add-mod_self_left (16 * m) (q / 16) _ in
    same ∙ mod-eq_of_lt below

unique : (m a b c d : ℕ) → b < m → d < m → m * a + b ≡ m * c + d → a ≡ c
unique m a b c d p q e =
    let left : (b + m * a) / m ≡ b / m + a = add-mul-div_left b a (omega arith) in
    let right : (d + m * c) / m ≡ d / m + c = add-mul-div_left d c (omega arith) in
    let same : (b + m * a) / m ≡ (d + m * c) / m = ap (λ (x : ℕ). x / m) (omega arith) in
    omega (arith, div-eq_of_lt p, div-eq_of_lt q)

-- going down into the bucket with the key's index extends the remainder by that digit
pub residue-suc :
    (k level r i : ℕ)
    → k % span level ≡ r
    → k / span level % 16 ≡ i
    → k % span (suc level) ≡ r + span level * i
residue-suc k level r i p q =
    rw (span-suc level)
      (digits_of k (span level) (span-pos level) ∙ ap₂ (λ a b. a + span level * b) p q)

-- and the remainder gives the index back
pub index_of-residue :
    (k level r i : ℕ)
    → r < span level
    → k % span (suc level) ≡ r + span level * i
    → k / span level % 16 ≡ i
index_of-residue k level r i h p =
    let m = span level in
    let pos = span-pos level in
    let e : m * (k / m % 16) + k % m ≡ m * i + r =
      omega (arith, digits_of k m pos, rw (span-suc level) at p) in
    unique m (k / m % 16) (k % m) i r (mod-lt k pos) h e

pub residue-pred :
    (k level r i : ℕ)
    → r < span level
    → k % span (suc level) ≡ r + span level * i
    → k % span level ≡ r
residue-pred k level r i h p =
    let m = span level in
    omega (
      arith,
      digits_of k m (span-pos level),
      rw (span-suc level) at p,
      ap (λ (x : ℕ). m * x) (index_of-residue k level r i h p),
    )

pub residue-lt : (level r i : ℕ) → r < span level → i < 16 → r + span level * i < span (suc level)
residue-lt level r i h lt = omega (arith, span-suc level, mul_digit (span level) i lt)

-- at level 16 the path fixes the whole key
pub eq_of-residue :
    (j k r : ℕ) → j < ull_mod → k < ull_mod → j % span 16 ≡ r → k % span 16 ≡ r → j ≡ k
eq_of-residue j k r p q e f = omega arith
