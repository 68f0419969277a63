-- ===== src/Base/Words.antt =====
-- `unsigned long long`: natural numbers below 2 ^ 64 whose arithmetic wraps.
use Prim.Native.Nat.{ℕ, ◌+◌, ◌-◌, ◌%◌, ◌^◌}

abbrev pub ull_mod : ℕ
ull_mod = 2 ^ 64

-- `++x`
abbrev pub inc : ℕ → ℕ
inc x = (x + 1) % ull_mod

-- `--x`
abbrev pub dec : ℕ → ℕ
dec x = (x + (ull_mod - 1)) % ull_mod
