-- ===== src/Common/Word.antt =====
-- The casts, shifts and bit tests of the C source on unsigned words, as native numbers.
use Prim.Native.Nat.{ℕ, ◌+◌, ◌-◌, ◌*◌, ◌/◌, ◌%◌, ◌^◌, bit_and}
use mathlib.Core.Bool.{Bool, not}
use z80_trace.Common.Tests.{ltb, ◌==◌, if◌then◌else◌}

-- `(UINT8)n`, `(UINT16)n`, `(UINT32)n` and `(UINT64)n`.
abbrev pub u64 : ℕ → ℕ
u64 n = n % 2 ^ 64

abbrev pub u32 : ℕ → ℕ
u32 n = n % 4294967296

abbrev pub u16 : ℕ → ℕ
u16 n = n % 65536

abbrev pub u8 : ℕ → ℕ
u8 n = n % 256

-- `x << k` and `x >> k`.
infixl 75 ◌<<<◌ ◌>>>◌
abbrev pub ◌<<<◌ : ℕ → ℕ → ℕ
x <<< k = x * 2 ^ k

abbrev pub ◌>>>◌ : ℕ → ℕ → ℕ
x >>> k = x / 2 ^ k

-- `(x & mask) != 0`.
abbrev pub test : ℕ → ℕ → Bool
test x mask = not (bit_and x mask == 0)

-- `x + (int8_t)d`, to 16 bits: a displacement of 128 or more stands for `d - 256`.
abbrev pub add_disp : ℕ → ℕ → ℕ
add_disp x d = u16 (if ltb d 128 then x + d else x + 65536 - (256 - d))
