-- ===== src/Common/Digits.antt =====
-- The native bit operations are recursions on binary digits (`digits`). These are the facts about
-- that recursion from which Common/Bits.antt has the laws of the three operations.
use Prim.Native.Nat.{ℕ, zero, suc, ◌+◌, ◌*◌, ◌/◌, ◌%◌, ◌^◌, ◌≤◌, ◌<◌, digits}
use mathlib.Core.Path.{◌≡◌, refl}
use native.Mathlib.Nat.{pow-suc}
use native.Mathlib.Omega.{arith}

-- Digit `k` of a number, the lowest being digit 0.
unfoldable pub bit_at : ℕ → ℕ → ℕ
bit_at zero x = x % 2
bit_at (suc k) x = bit_at k (x / 2)

pub bit_at-le : (k x : ℕ) → bit_at k x ≤ 1
unfolding bit_at
bit_at-le zero x = omega arith
bit_at-le (suc k) x = bit_at-le k (x / 2)

pub bit_at-zero : (k : ℕ) → bit_at k 0 ≡ 0
unfolding bit_at
bit_at-zero zero = refl
bit_at-zero (suc k) = bit_at-zero k

-- Numbers with the same digits are equal.
pub eq_of_bit_at : (w x y : ℕ) → x < 2 ^ w → y < 2 ^ w → ((k : ℕ) → bit_at k x ≡ bit_at k y) → x ≡ y
unfolding bit_at
eq_of_bit_at zero x y hx hy same = omega arith
eq_of_bit_at (suc w) x y hx hy same = omega (
  arith,
  same 0,
  eq_of_bit_at w (x / 2) (y / 2) (omega (arith, pow-suc 2 w)) (omega (arith, pow-suc 2 w))
      (λ k. same (suc k)),
)

half-double_add : (q r : ℕ) → r ≤ 1 → (q * 2 + r) / 2 ≡ q
half-double_add q r h = omega arith

module _ (z : ℕ → ℕ) (f : ℕ → ℕ → ℕ) where
  -- Where the digits of `z b` are those of `f` at a first digit 0, `digits` is `f` digit by digit.
  pub bit_at-digits :
      ((x y : ℕ) → x ≤ 1 → y ≤ 1 → f x y ≤ 1)
      → ((k b : ℕ) → bit_at k (z b) ≡ f 0 (bit_at k b))
      → (n k a b : ℕ) → a ≤ n
      → bit_at k (digits z f n a b) ≡ f (bit_at k a) (bit_at k b)
  unfolding bit_at
  bit_at-digits small ends zero k zero b le = rw (bit_at-zero k) (ends k b)
  bit_at-digits small ends zero k (suc a) b le = absurd (omega arith)
  bit_at-digits small ends (suc n) k zero b le = rw (bit_at-zero k) (ends k b)
  bit_at-digits small ends (suc n) zero (suc a) b le =
      omega (arith, small (suc a % 2) (b % 2) (omega arith) (omega arith))
  bit_at-digits small ends (suc n) (suc k) (suc a) b le =
      rw (half-double_add _ _ (small (suc a % 2) (b % 2) (omega arith) (omega arith)))
        (bit_at-digits small ends n k (suc a / 2) (b / 2) (omega arith))

  -- `digits` stays within the width of its arguments.
  pub digits-lt :
      ((x y : ℕ) → x ≤ 1 → y ≤ 1 → f x y ≤ 1)
      → ((b w : ℕ) → b < 2 ^ w → z b < 2 ^ w)
      → (n w a b : ℕ) → a < 2 ^ w
      → b < 2 ^ w
      → digits z f n a b < 2 ^ w
  digits-lt small ends zero w a b ha hb = ends b w hb
  digits-lt small ends (suc n) w zero b ha hb = ends b w hb
  digits-lt small ends (suc n) zero (suc a) b ha hb = absurd (omega arith)
  digits-lt small ends (suc n) (suc w) (suc a) b ha hb = omega (
    arith,
    pow-suc 2 w,
    small (suc a % 2) (b % 2) (omega arith) (omega arith),
    digits-lt small ends n w (suc a / 2) (b / 2) (omega (arith, pow-suc 2 w))
        (omega (arith, pow-suc 2 w)),
  )
