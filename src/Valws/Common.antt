-- ===== src/Valws/Common.antt =====
-- Assignment03/valws379_base.h and valws379_base.c: the constants, the pairs and small helpers.
pub mod Power
use c380_1code.Base.{ℕ, zero, suc, ◌/◌, ◌-◌, Option, none, some, ◌==◌, if◌then◌else◌, ull_mod, inc}

abbrev pub table_size : ℕ
table_size = 16

abbrev pub split_size : ℕ
split_size = 15

abbrev pub merge_size : ℕ
merge_size = 6

pub record MemRef : Type 0 where
  pub address : ℕ
  pub page_count : ℕ

pub record KeyValue : Type 0 where
  pub key : ℕ
  pub value : ℕ

unfoldable pub new_mem_ref : MemRef
new_mem_ref = record { address = 0; page_count = 0 }

-- The loop of `get_power_of_two`; `none` when the rounds run out.
pub power_loop : ℕ → (exponent new_value : ℕ) → Option ℕ
power_loop zero exponent new_value = none
power_loop (suc rounds) exponent new_value =
    let rest = power_loop rounds (inc exponent) (new_value / 2) in
    if new_value == 0 then some exponent else rest

-- `exponent` starts at -1, the largest word
unfoldable pub get_power_of_two : ℕ → Option ℕ
unfolding power_loop
get_power_of_two value = power_loop 65 (ull_mod - 1) value
