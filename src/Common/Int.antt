-- ===== src/Common/Int.antt =====
-- The integers, for a C `int` that can be negative.
use Prim.Native.Nat.{ℕ, ◌-◌}
use z80_trace.Common.Tests.{leb, if◌then◌else◌}

-- `negsuc n` is -(n + 1).
pub data ℤ : Type 0 where
  pos negsuc : ℕ → ℤ

-- The difference of two natural numbers.
abbrev pub sub_ℕ : ℕ → ℕ → ℤ
sub_ℕ a b = if leb b a then pos (a - b) else negsuc (b - a - 1)
