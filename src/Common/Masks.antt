-- ===== src/Common/Masks.antt =====
-- Tests of one bit, `(x & (1 << k)) != 0`, of what `|`, `&` and `^` give.
use Prim.Native.Nat.{ℕ, zero, suc, ◌^◌, ◌≤◌, min, max, differ, bit_and, bit_or, bit_xor}
use mathlib.Core.Bool.{Bool, true, false, not, ◌&&◌, ◌||◌}
use mathlib.Core.Path.{◌≡◌, refl}
use native.Mathlib.Omega.{arith}
use z80_trace.Common.Tests.{◌==◌}
use z80_trace.Common.Word.{test}
use z80_trace.Common.Digits.{bit_at, bit_at-le}
use z80_trace.Common.Bits.{bit_at-and, bit_at-or, bit_at-xor, test-two-pow}

unfoldable pub xor : Bool → Bool → Bool
xor true b = not b
xor false b = b

digit-or : (a b : ℕ) → a ≤ 1 → b ≤ 1 → (max a b == 1) ≡ ((a == 1) || (b == 1))
digit-or a b ha hb = ground arith

digit-and : (a b : ℕ) → a ≤ 1 → b ≤ 1 → (min a b == 1) ≡ ((a == 1) && (b == 1))
digit-and a b ha hb = ground arith

digit-xor : (a b : ℕ) → a ≤ 1 → b ≤ 1 → (differ a b == 1) ≡ xor (a == 1) (b == 1)
unfolding xor
digit-xor zero zero ha hb = refl
digit-xor zero (suc zero) ha hb = refl
digit-xor (suc zero) zero ha hb = refl
digit-xor (suc zero) (suc zero) ha hb = refl
digit-xor (suc (suc a)) b ha hb = absurd (omega arith)
digit-xor zero (suc (suc b)) ha hb = absurd (omega arith)
digit-xor (suc zero) (suc (suc b)) ha hb = absurd (omega arith)

pub test-or : (k x y : ℕ) → test (bit_or x y) (2 ^ k) ≡ (test x (2 ^ k) || test y (2 ^ k))
test-or k x y =
    rw (test-two-pow k (bit_or x y), test-two-pow k x, test-two-pow k y, bit_at-or k x y)
      (digit-or (bit_at k x) (bit_at k y) (bit_at-le k x) (bit_at-le k y))

pub test-and : (k x y : ℕ) → test (bit_and x y) (2 ^ k) ≡ (test x (2 ^ k) && test y (2 ^ k))
test-and k x y =
    rw (test-two-pow k (bit_and x y), test-two-pow k x, test-two-pow k y, bit_at-and k x y)
      (digit-and (bit_at k x) (bit_at k y) (bit_at-le k x) (bit_at-le k y))

pub test-xor : (k x y : ℕ) → test (bit_xor x y) (2 ^ k) ≡ xor (test x (2 ^ k)) (test y (2 ^ k))
test-xor k x y =
    rw (test-two-pow k (bit_xor x y), test-two-pow k x, test-two-pow k y, bit_at-xor k x y)
      (digit-xor (bit_at k x) (bit_at k y) (bit_at-le k x) (bit_at-le k y))
