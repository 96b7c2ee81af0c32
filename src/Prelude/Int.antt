-- ===== src/Prelude/Int.antt =====
-- Go's `int` and `time.Duration` where they may be negative: `negsuc n` is -(n + 1).
use Prim.Native.Nat.{ℕ, zero, suc, ◌-◌, ◌%◌, ◌^◌, ◌+◌}
use mathlib.Core.Bool.{Bool, true, false}

pub data ℤ : Type 0 where
  pos : ℕ → ℤ
  negsuc : ℕ → ℤ

-- n <= 0
abbrev pub nonpos : ℤ → Bool
nonpos (pos zero) = true
nonpos (pos (suc n)) = false
nonpos (negsuc n) = true

abbrev pub u64 : ℕ
u64 = 2 ^ 64

-- the conversion `uint64(n)` of a signed integer: two's complement, modulo 2^64
abbrev pub to_uint64 : ℤ → ℕ
to_uint64 (pos n) = n % u64
to_uint64 (negsuc n) = (u64 - suc (n % u64)) % u64

-- `atomic.AddUint64` and `x++` on a uint64
abbrev pub add_u64 : ℕ → ℕ → ℕ
add_u64 a b = (a + b) % u64
