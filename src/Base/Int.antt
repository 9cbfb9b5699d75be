-- ===== src/Base/Int.antt =====
-- The 32-bit signed integers of the C interfaces, as integers with their range written out.
use Prim.Native.Nat.{ℕ, ◌-◌}
use wolf_engine.Base.Tests.{leb, if◌then◌else◌}

-- `negsuc n` is -(n + 1).
pub data ℤ : Type 0 where
  pos : ℕ → ℤ
  negsuc : ℕ → ℤ

abbrev pub i32_max : ℕ
i32_max = 2147483647

-- The value that a 32-bit pattern below 2 ^ 32 stands for.
abbrev pub i32_of_bits : ℕ → ℤ
i32_of_bits w = if leb w i32_max then pos w else negsuc (4294967295 - w)

-- `usize::try_from(i).unwrap_or(0)`
abbrev pub usize_or_zero : ℤ → ℕ
usize_or_zero (pos n) = n
usize_or_zero (negsuc n) = 0

-- `i32::try_from(n).unwrap_or(0)` of a `usize`
abbrev pub i32_or_zero : ℕ → ℕ
i32_or_zero n = if leb n i32_max then n else 0
