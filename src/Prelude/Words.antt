-- ===== src/Prelude/Words.antt =====
-- The saturating operations and the ranges of Rust's unsigned words.
use Prim.Native.Nat.{ℕ, ◌+◌, ◌*◌, ◌-◌, ◌^◌, min}

abbrev pub u32_max : ℕ
u32_max = 2 ^ 32 - 1

abbrev pub u64_max : ℕ
u64_max = 2 ^ 64 - 1

-- `saturating_add` of u64, and of usize on a 64-bit target
abbrev pub saturating_add : ℕ → ℕ → ℕ
saturating_add a b = min (a + b) u64_max

abbrev pub saturating_mul : ℕ → ℕ → ℕ
saturating_mul a b = min (a * b) u64_max

-- subtraction on ℕ stops at zero
abbrev pub saturating_sub : ℕ → ℕ → ℕ
saturating_sub a b = a - b
