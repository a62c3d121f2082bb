-- ===== src/Common/Table.antt =====
-- Facts about all values of a small range, checked one by one.
use z80_trace.Common.Tests.{if◌then◌else◌}
use native.Mathlib.Omega.{arith}
use mathlib.Core.Path.{◌≡◌}
use mathlib.Core.Bool.{Bool, true, false}
use Prim.Native.Nat.{ℕ, zero, suc, ◌<◌}

-- `check` holds of all numbers below a bound.
unfoldable pub holds_below : (ℕ → Bool) → ℕ → Bool
holds_below check zero = true
holds_below check (suc bound) = if check bound then holds_below check bound else false

pub read_table :
    (check : ℕ → Bool) (bound n : ℕ) → n < bound → holds_below check bound ≡ true → check n ≡ true
unfolding holds_below
read_table check zero n below table = absurd (omega arith)
read_table check (suc bound) n below table = ground (arith, read_table check bound n)
