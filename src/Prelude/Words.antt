-- ===== src/Prelude/Words.antt =====
-- The 64-bit words of a release build: `+`, `-` and `*` on `u64` and `usize` wrap around.
use Prim.Native.Nat.{ℕ, ◌+◌, ◌-◌, ◌*◌, ◌%◌, ◌^◌, ◌≤◌, ◌<◌}
use mathlib.Core.Path.{◌≡◌}
use native.Mathlib.Omega.{arith}
use native.Mathlib.Nat.{mod-eq_of_lt}

abbrev pub u64_mod : ℕ
u64_mod = 2 ^ 64

abbrev pub u64_max : ℕ
u64_max = u64_mod - 1

abbrev pub wrapping_add : ℕ → ℕ → ℕ
wrapping_add a b = (a + b) % u64_mod

abbrev pub wrapping_sub : ℕ → ℕ → ℕ
wrapping_sub a b = (a + u64_mod - b) % u64_mod

abbrev pub wrapping_mul : ℕ → ℕ → ℕ
wrapping_mul a b = (a * b) % u64_mod

pub wrapping_add-eq : (a b : ℕ) → a + b < u64_mod → wrapping_add a b ≡ a + b
wrapping_add-eq a b h = omega arith

pub wrapping_sub-eq : (a b : ℕ) → a < u64_mod → b ≤ a → wrapping_sub a b ≡ a - b
wrapping_sub-eq a b h k = omega arith

pub wrapping_mul-eq : (a b : ℕ) → a * b < u64_mod → wrapping_mul a b ≡ a * b
wrapping_mul-eq a b h = mod-eq_of_lt h
