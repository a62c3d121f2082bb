-- ===== src/Common/Join.antt =====
-- `|` of two numbers that share no bit is their sum, and `&` with a low mask is a remainder.
use Prim.Native.Nat.{ℕ, zero, suc, ◌+◌, ◌*◌, ◌/◌, ◌%◌, ◌^◌, ◌<◌, bit_and, bit_or}
use mathlib.Core.Path.{◌≡◌, ◌∙◌}
use native.Mathlib.Omega.{arith}
use native.Mathlib.Nat.{pow-suc}
use z80_trace.Common.Digits.{bit_at}
use z80_trace.Common.Bits.{bit_and-two-pow}
use z80_trace.Common.Bits.{
  bit_at-or, bit_at-and, bit_or-half, bit_and-half, bit_or-zero, bit_and-zero,
}

mul-pow-suc : (k a : ℕ) → a * 2 ^ suc k ≡ a * 2 ^ k * 2
mul-pow-suc k a = rw (pow-suc 2 k) (omega arith)

pub join_add : (k a b : ℕ) → b < 2 ^ k → bit_or (a * 2 ^ k) b ≡ a * 2 ^ k + b
unfolding bit_at
join_add zero a b h = let z : b ≡ 0 = omega arith in rw z (bit_or-zero (a * 1) ∙ omega arith)
join_add (suc k) a b h =
    let h1 : b / 2 < 2 ^ k = omega (arith, pow-suc 2 k) in
    let e : a * 2 ^ suc k / 2 ≡ a * 2 ^ k = omega (arith, mul-pow-suc k a) in
    omega (
      arith,
      mul-pow-suc k a,
      join_add k a (b / 2) h1,
      bit_at-or 0 (a * 2 ^ suc k) b,
      rw e at (bit_or-half (a * 2 ^ suc k) b),
    )

-- A mask of ones, one digit at a time.
mask_step : (m a : ℕ) → bit_and a (m * 2 + 1) ≡ bit_and (a / 2) m * 2 + a % 2
unfolding bit_at
mask_step m a =
    let e : (m * 2 + 1) / 2 ≡ m = omega arith in
    omega (arith, bit_at-and 0 a (m * 2 + 1), rw e at (bit_and-half a (m * 2 + 1)))

pub low_nibble : (a : ℕ) → bit_and a 0x0f ≡ a % 16
low_nibble a = omega (
  arith,
  mask_step 7 a,
  mask_step 3 (a / 2),
  mask_step 1 (a / 2 / 2),
  mask_step 0 (a / 2 / 2 / 2),
  bit_and-zero (a / 2 / 2 / 2 / 2),
)

mask_four : (m a : ℕ) → bit_and a (m * 16 + 15) ≡ bit_and (a / 16) m * 16 + a % 16
mask_four m a =
    let e : a / 2 / 2 / 2 / 2 ≡ a / 16 = omega arith in
    let e1 : (m * 2 + 1) * 2 + 1 ≡ m * 4 + 3 = omega arith in
    let e2 : (m * 4 + 3) * 2 + 1 ≡ m * 8 + 7 = omega arith in
    let e3 : (m * 8 + 7) * 2 + 1 ≡ m * 16 + 15 = omega arith in
    omega (
      arith,
      rw e3 at (mask_step (m * 8 + 7) a),
      rw e2 at (mask_step (m * 4 + 3) (a / 2)),
      rw e1 at (mask_step (m * 2 + 1) (a / 2 / 2)),
      rw e at (mask_step m (a / 2 / 2 / 2)),
    )

pub low_byte_mask : (a : ℕ) → bit_and a 0xff ≡ a % 256
low_byte_mask a = omega (arith, mask_four 15 a, low_nibble (a / 16))

pub low_twelve : (a : ℕ) → bit_and a 0x0fff ≡ a % 4096
low_twelve a = omega (arith, mask_four 255 a, low_byte_mask (a / 16))

pub low_seven : (a : ℕ) → bit_and a 0x7f ≡ a % 128
low_seven a = omega (
  arith,
  mask_four 7 a,
  mask_step 3 (a / 16),
  mask_step 1 (a / 16 / 2),
  mask_step 0 (a / 16 / 2 / 2),
  bit_and-zero (a / 16 / 2 / 2 / 2),
)

pub high_bit : (a : ℕ) → a < 256 → bit_and a 0x80 ≡ a / 128 * 128
unfolding bit_at
high_bit a h = omega (arith, bit_and-two-pow 7 a)
