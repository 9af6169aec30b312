-- ===== src/Prelude/Words.antt =====
-- Machine words as natural numbers, and addresses rounded down to a power of two.
use Prim.Native.Nat.{ℕ, ◌-◌, ◌%◌, ◌^◌}

-- The value that a 32-bit unsigned variable keeps of `n`.
abbrev pub wrap32 : ℕ → ℕ
wrap32 n = n % 2 ^ 32

-- The value that a 64-bit unsigned variable keeps of `n`.
abbrev pub wrap64 : ℕ → ℕ
wrap64 n = n % 2 ^ 64

-- `a & ~(k - 1)` for a power of two `k`.
abbrev pub align_down : ℕ → ℕ → ℕ
align_down k a = a - a % k

-- `(int)-1` and `(unsigned long)-1` as bit patterns.
abbrev pub minus_one32 : ℕ
minus_one32 = 0xffff_ffff

abbrev pub minus_one64 : ℕ
minus_one64 = 0xffff_ffff_ffff_ffff
