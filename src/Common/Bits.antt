-- ===== src/Common/Bits.antt =====
-- The laws of `&`, `|` and `^`: what each does digit by digit, and the width of the result.
use Prim.Native.Nat.{ℕ, zero, suc, ◌+◌, ◌*◌, ◌/◌, ◌^◌, ◌≤◌, ◌<◌, min, max, differ}
use Prim.Native.Nat.{bit_and, bit_or, bit_xor, bit_and-bitwise, bit_or-bitwise, bit_xor-bitwise}
use mathlib.Core.Bool.{not}
use mathlib.Core.Path.{◌≡◌, refl, ◌∙◌, sym}
use native.Mathlib.Omega.{arith}
use native.Mathlib.Nat.{le_refl, one-le-pow, pow-suc}
use z80_trace.Common.Word.{test}
use z80_trace.Common.Tests.{◌==◌}
use z80_trace.Common.Digits.{bit_at, bit_at-le, bit_at-zero, bit_at-digits, digits-lt, eq_of_bit_at}

differ-le : (x y : ℕ) → x ≤ 1 → y ≤ 1 → differ x y ≤ 1
differ-le zero y hx hy = hy
differ-le (suc x) zero hx hy = hx
differ-le (suc x) (suc y) hx hy = differ-le x y (omega arith) (omega arith)

pub bit_at-and : (k a b : ℕ) → bit_at k (bit_and a b) ≡ min (bit_at k a) (bit_at k b)
bit_at-and k a b = rw bit_and-bitwise (
    bit_at-digits (λ b. zero) min (λ x y hx hy. omega arith) (λ k b. bit_at-zero k ∙ omega arith) a
      k a b (le_refl a))

pub bit_at-or : (k a b : ℕ) → bit_at k (bit_or a b) ≡ max (bit_at k a) (bit_at k b)
bit_at-or k a b =
    rw bit_or-bitwise (
      bit_at-digits (λ b. b) max (λ x y hx hy. omega arith) (λ k b. omega arith) a k a b
        (le_refl a))

pub bit_at-xor : (k a b : ℕ) → bit_at k (bit_xor a b) ≡ differ (bit_at k a) (bit_at k b)
bit_at-xor k a b =
    rw bit_xor-bitwise (bit_at-digits (λ b. b) differ differ-le (λ k b. refl) a k a b (le_refl a))

pub bit_and-lt : (w a b : ℕ) → a < 2 ^ w → b < 2 ^ w → bit_and a b < 2 ^ w
bit_and-lt w a b ha hb = rw bit_and-bitwise (
    digits-lt (λ b. zero) min (λ x y hx hy. omega arith) (λ b v h. one-le-pow v 2 (omega arith)) a w
      a b ha hb)

pub bit_or-lt : (w a b : ℕ) → a < 2 ^ w → b < 2 ^ w → bit_or a b < 2 ^ w
bit_or-lt w a b ha hb =
    rw bit_or-bitwise (digits-lt (λ b. b) max (λ x y hx hy. omega arith) (λ b v h. h) a w a b ha hb)

pub bit_xor-lt : (w a b : ℕ) → a < 2 ^ w → b < 2 ^ w → bit_xor a b < 2 ^ w
bit_xor-lt w a b ha hb =
    rw bit_xor-bitwise (digits-lt (λ b. b) differ differ-le (λ b v h. h) a w a b ha hb)

lt-two-pow : (w n : ℕ) → n ≤ w → n < 2 ^ w
lt-two-pow zero n h = omega arith
lt-two-pow (suc w) zero h = one-le-pow (suc w) 2 (omega arith)
lt-two-pow (suc w) (suc n) h = omega (arith, pow-suc 2 w, lt-two-pow w n (omega arith))

-- The digits above the lowest.
pub bit_and-half : (a b : ℕ) → bit_and a b / 2 ≡ bit_and (a / 2) (b / 2)
unfolding bit_at
bit_and-half a b =
    let w = a + b in
    let ha : a < 2 ^ w = lt-two-pow w a (omega arith) in
    let hb : b < 2 ^ w = lt-two-pow w b (omega arith) in
    eq_of_bit_at w (bit_and a b / 2) (bit_and (a / 2) (b / 2))
      (omega (arith, bit_and-lt w a b ha hb))
      (bit_and-lt w (a / 2) (b / 2) (omega arith) (omega arith))
      (λ k. bit_at-and (suc k) a b ∙ sym (bit_at-and k (a / 2) (b / 2)))

pub bit_and-zero : (a : ℕ) → bit_and a 0 ≡ 0
bit_and-zero a =
    eq_of_bit_at a (bit_and a 0) 0
      (bit_and-lt a a 0 (lt-two-pow a a (le_refl a)) (one-le-pow a 2 (omega arith)))
      (one-le-pow a 2 (omega arith)) (λ k. omega (arith, bit_at-and k a 0, bit_at-zero k))

pub bit_or-half : (a b : ℕ) → bit_or a b / 2 ≡ bit_or (a / 2) (b / 2)
unfolding bit_at
bit_or-half a b =
    let w = a + b in
    let ha : a < 2 ^ w = lt-two-pow w a (omega arith) in
    let hb : b < 2 ^ w = lt-two-pow w b (omega arith) in
    eq_of_bit_at w (bit_or a b / 2) (bit_or (a / 2) (b / 2)) (omega (arith, bit_or-lt w a b ha hb))
      (bit_or-lt w (a / 2) (b / 2) (omega arith) (omega arith))
      (λ k. bit_at-or (suc k) a b ∙ sym (bit_at-or k (a / 2) (b / 2)))

pub bit_or-zero : (a : ℕ) → bit_or a 0 ≡ a
bit_or-zero a =
    eq_of_bit_at a (bit_or a 0) a
      (bit_or-lt a a 0 (lt-two-pow a a (le_refl a)) (one-le-pow a 2 (omega arith)))
      (lt-two-pow a a (le_refl a)) (λ k. omega (arith, bit_at-or k a 0, bit_at-zero k))

bit_and-double : (a m : ℕ) → bit_and a (m * 2) ≡ bit_and (a / 2) m * 2
unfolding bit_at
bit_and-double a m =
    let half : m * 2 / 2 ≡ m = omega arith in
    omega (arith, bit_at-and 0 a (m * 2), rw half at (bit_and-half a (m * 2)))

-- A mask of one bit leaves that digit in its place.
pub bit_and-two-pow : (k a : ℕ) → bit_and a (2 ^ k) ≡ bit_at k a * 2 ^ k
unfolding bit_at
bit_and-two-pow zero a = omega (arith, bit_at-and 0 a 1, bit_and-half a 1, bit_and-zero (a / 2))
bit_and-two-pow (suc k) a =
    rw (pow-suc 2 k, bit_and-double a (2 ^ k), bit_and-two-pow k (a / 2)) (omega arith)

two_digits : (d p : ℕ) → d ≤ 1 → 1 ≤ p → not (d * p == 0) ≡ (d == 1)
two_digits zero p hd hp = ground arith
two_digits (suc zero) p hd hp = ground arith
two_digits (suc (suc d)) p hd hp = absurd (omega arith)

-- `(x & (1 << k)) != 0` reads digit `k`.
pub test-two-pow : (k x : ℕ) → test x (2 ^ k) ≡ (bit_at k x == 1)
test-two-pow k x =
    rw (bit_and-two-pow k x)
      (two_digits (bit_at k x) (2 ^ k) (bit_at-le k x) (one-le-pow k 2 (omega arith)))
