-- ===== src/Prelude/Words.antt =====
-- The machine-word operations of the program: `u32` and `u64` values are numbers below 2 ^ 32 and
-- 2 ^ 64.
use Prim.Native.Nat.{ℕ, ◌+◌, ◌-◌, ◌*◌, ◌%◌, ◌^◌, min}
use mathlib.Core.Option.{Option, none, some}
use development_kit.Prelude.Tests.{ltb, if◌then◌else◌}

abbrev pub u32_modulus : ℕ
u32_modulus = 2 ^ 32

abbrev pub u64_max : ℕ
u64_max = 2 ^ 64 - 1

-- Saturation: a result that does not fit is the nearest one that does.
unfoldable pub saturating_add : ℕ → ℕ → ℕ
saturating_add a b = min (a + b) u64_max

unfoldable pub saturating_sub : ℕ → ℕ → ℕ
saturating_sub a b = a - b

unfoldable pub saturating_mul : ℕ → ℕ → ℕ
saturating_mul a b = min (a * b) u64_max

-- `checked_shl`: no result when the shift is as wide as the word.
unfoldable pub checked_shl : ℕ → ℕ → Option ℕ
checked_shl a e = if ltb e 64 then some ((a * 2 ^ e) % 2 ^ 64) else none

-- `u64::abs_diff`.
unfoldable pub abs_diff : ℕ → ℕ → ℕ
abs_diff a b = if ltb a b then b - a else a - b
