-- ===== src/Cpu/Laws/Flags.antt =====
-- src/z80_exec.c, `FlagsSZ53` and the flag bytes that are built on it: reading one flag.
use z80_trace.Common.{ℕ, ◌<◌, ◌^◌, ◌%◌, bit_and, bit_or, Bool, true, false, ◌||◌, ◌&&◌}
use z80_trace.Common.{test, if◌then◌else◌, ◌≡◌, refl, sym, ap, ap₂, ◌∙◌, arith, leb, ◌==◌}
use z80_trace.Common.Masks.{test-or, test-and}
use z80_trace.Common.Digits.{bit_at}
use z80_trace.Common.Bits.{test-two-pow}
use z80_trace.Cpu.Flags.{or_if, flags_sz53, flags_szp53, parity}

pub or-false : (b : Bool) → (b || false) ≡ b
or-false true = refl
or-false false = refl

set_flag : (b x : Bool) → (x || b) ≡ (if b then true else x)
set_flag true true = refl
set_flag true false = refl
set_flag false true = refl
set_flag false false = refl

kept_flag : (b x : Bool) → x ≡ (if b then x else x)
kept_flag true x = refl
kept_flag false x = refl

pub test-or_if :
    (k : ℕ) (c : Bool) (mask x : ℕ)
    → test (or_if c mask x) (2 ^ k)
      ≡ (if test mask (2 ^ k) then c || test x (2 ^ k) else test x (2 ^ k))
unfolding or_if
test-or_if k true mask x = test-or k x mask ∙ set_flag (test mask (2 ^ k)) (test x (2 ^ k))
test-or_if k false mask x = kept_flag (test mask (2 ^ k)) (test x (2 ^ k))

masked : (b x : Bool) → (x && b) ≡ (if b then x else false)
masked true true = refl
masked true false = refl
masked false true = refl
masked false false = refl

pub test-masked :
    (k x mask : ℕ)
    → test (bit_and x mask) (2 ^ k) ≡ (if test mask (2 ^ k) then test x (2 ^ k) else false)
test-masked k x mask = test-and k x mask ∙ masked (test mask (2 ^ k)) (test x (2 ^ k))

-- The sign of a byte, its zero flag, and the flags that `flags_sz53` leaves clear.
pub sign_bit : (x : ℕ) → x < 256 → test x 0x80 ≡ leb 128 x
unfolding bit_at
sign_bit x h = test-two-pow 7 x ∙ ground arith

pub flags_sz53-sign : (x : ℕ) → x < 256 → test (flags_sz53 x) 0x80 ≡ leb 128 x
unfolding flags_sz53
flags_sz53-sign x h =
    test-or_if 7 (x == 0) 0x40 (bit_and x 0xa8) ∙ test-masked 7 x 0xa8 ∙ sign_bit x h

pub flags_sz53-zero : (x : ℕ) → test (flags_sz53 x) 0x40 ≡ (x == 0)
unfolding flags_sz53
flags_sz53-zero x =
    test-or_if 6 (x == 0) 0x40 (bit_and x 0xa8)
    ∙ ap (λ b. (x == 0) || b) (test-masked 6 x 0xa8)
    ∙ or-false (x == 0)

pub flags_sz53-half : (x : ℕ) → test (flags_sz53 x) 0x10 ≡ false
unfolding flags_sz53
flags_sz53-half x = test-or_if 4 (x == 0) 0x40 (bit_and x 0xa8) ∙ test-masked 4 x 0xa8

pub flags_sz53-parity : (x : ℕ) → test (flags_sz53 x) 0x04 ≡ false
unfolding flags_sz53
flags_sz53-parity x = test-or_if 2 (x == 0) 0x40 (bit_and x 0xa8) ∙ test-masked 2 x 0xa8

pub flags_sz53-subtract : (x : ℕ) → test (flags_sz53 x) 0x02 ≡ false
unfolding flags_sz53
flags_sz53-subtract x = test-or_if 1 (x == 0) 0x40 (bit_and x 0xa8) ∙ test-masked 1 x 0xa8

pub flags_sz53-carry : (x : ℕ) → test (flags_sz53 x) 0x01 ≡ false
unfolding flags_sz53
flags_sz53-carry x = test-or_if 0 (x == 0) 0x40 (bit_and x 0xa8) ∙ test-masked 0 x 0xa8

-- Carry, overflow and half carry, set over a byte in the order in which the source sets them.
module _ (c p h : Bool) (x : ℕ) where
  abbrev pub three_flags : ℕ
  three_flags = or_if c 0x01 (or_if p 0x04 (or_if h 0x10 x))

  pub three_flags-carry : test three_flags 0x01 ≡ (c || test x 0x01)
  three_flags-carry =
      test-or_if 0 c 0x01 (or_if p 0x04 (or_if h 0x10 x))
      ∙ ap (λ b. c || b) (test-or_if 0 p 0x04 (or_if h 0x10 x) ∙ test-or_if 0 h 0x10 x)

  pub three_flags-overflow : test three_flags 0x04 ≡ (p || test x 0x04)
  three_flags-overflow =
      test-or_if 2 c 0x01 (or_if p 0x04 (or_if h 0x10 x))
      ∙ test-or_if 2 p 0x04 (or_if h 0x10 x)
      ∙ ap (λ b. p || b) (test-or_if 2 h 0x10 x)

  pub three_flags-half : test three_flags 0x10 ≡ (h || test x 0x10)
  three_flags-half =
      test-or_if 4 c 0x01 (or_if p 0x04 (or_if h 0x10 x))
      ∙ test-or_if 4 p 0x04 (or_if h 0x10 x)
      ∙ test-or_if 4 h 0x10 x

  pub three_flags-zero : test three_flags 0x40 ≡ test x 0x40
  three_flags-zero =
      test-or_if 6 c 0x01 (or_if p 0x04 (or_if h 0x10 x))
      ∙ test-or_if 6 p 0x04 (or_if h 0x10 x)
      ∙ test-or_if 6 h 0x10 x

  pub three_flags-sign : test three_flags 0x80 ≡ test x 0x80
  three_flags-sign =
      test-or_if 7 c 0x01 (or_if p 0x04 (or_if h 0x10 x))
      ∙ test-or_if 7 p 0x04 (or_if h 0x10 x)
      ∙ test-or_if 7 h 0x10 x

  pub three_flags-subtract : test three_flags 0x02 ≡ test x 0x02
  three_flags-subtract =
      test-or_if 1 c 0x01 (or_if p 0x04 (or_if h 0x10 x))
      ∙ test-or_if 1 p 0x04 (or_if h 0x10 x)
      ∙ test-or_if 1 h 0x10 x

-- The base of a subtraction's flags: N joined to a byte.
with_n :
    (k x : ℕ) → test (bit_or x 0x02) (2 ^ k) ≡ (if test 0x02 (2 ^ k) then true else test x (2 ^ k))
with_n k x = test-or k x 0x02 ∙ set_flag (test 0x02 (2 ^ k)) (test x (2 ^ k))

-- What `sub8_flags` and `compare8_flags` start from.
pub record IsSubBase (result base : ℕ) : Type 0 where
  pub base_carry : test base 0x01 ≡ false
  pub base_half : test base 0x10 ≡ false
  pub base_parity : test base 0x04 ≡ false
  pub base_subtract : test base 0x02 ≡ true
  pub base_zero : test base 0x40 ≡ (result == 0)
  pub base_sign : test base 0x80 ≡ leb 128 result

pub sub_base : (x : ℕ) → x < 256 → IsSubBase x (bit_or (flags_sz53 x) 0x02)
sub_base x h = record {
  base_carry = with_n 0 (flags_sz53 x) ∙ flags_sz53-carry x;
  base_half = with_n 4 (flags_sz53 x) ∙ flags_sz53-half x;
  base_parity = with_n 2 (flags_sz53 x) ∙ flags_sz53-parity x;
  base_subtract = with_n 1 (flags_sz53 x);
  base_zero = with_n 6 (flags_sz53 x) ∙ flags_sz53-zero x;
  base_sign = with_n 7 (flags_sz53 x) ∙ flags_sz53-sign x h;
}

-- In a comparison the copies of bits 3 and 5 come from the right operand.
compare_bits :
    (k x y : ℕ)
    → test (or_if (x == 0) 0x40 (bit_or (bit_or (bit_and x 0x80) (bit_and y 0x28)) 0x02)) (2 ^ k)
      ≡ (if test 0x40 (2 ^ k)
          then (x == 0)
            || (if test 0x02 (2 ^ k)
                then true
                else (if test 0x80 (2 ^ k) then test x (2 ^ k) else false)
                  || (if test 0x28 (2 ^ k) then test y (2 ^ k) else false))
          else (if test 0x02 (2 ^ k)
              then true
              else (if test 0x80 (2 ^ k) then test x (2 ^ k) else false)
                || (if test 0x28 (2 ^ k) then test y (2 ^ k) else false)))
compare_bits k x y =
    let masks = bit_or (bit_and x 0x80) (bit_and y 0x28) in
    let parts =
      test-or k (bit_and x 0x80) (bit_and y 0x28)
      ∙ ap₂ ◌||◌ (test-masked k x 0x80) (test-masked k y 0x28) in
    test-or_if k (x == 0) 0x40 (bit_or masks 0x02)
    ∙ ap (λ b. if test 0x40 (2 ^ k) then (x == 0) || b else b)
        (with_n k masks ∙ ap (λ b. if test 0x02 (2 ^ k) then true else b) parts)

pub compare_base :
    (x y : ℕ)
    → x < 256
    → IsSubBase x (or_if (x == 0) 0x40 (bit_or (bit_or (bit_and x 0x80) (bit_and y 0x28)) 0x02))
compare_base x y h = record {
  base_carry = compare_bits 0 x y;
  base_half = compare_bits 4 x y;
  base_parity = compare_bits 2 x y;
  base_subtract = compare_bits 1 x y;
  base_zero = compare_bits 6 x y ∙ or-false (x == 0);
  base_sign = compare_bits 7 x y ∙ or-false (test x 0x80) ∙ sign_bit x h;
}

-- A cast to a byte keeps its bits.
pub carry_bit_of_byte : (x : ℕ) → test (x % 256) 0x01 ≡ test x 0x01
unfolding bit_at
carry_bit_of_byte x =
    test-two-pow 0 (x % 256) ∙ ap (λ n. n == 1) (omega arith) ∙ sym (test-two-pow 0 x)

pub flags_szp53-carry : (x : ℕ) → test (flags_szp53 x) 0x01 ≡ false
unfolding flags_szp53
flags_szp53-carry x = test-or_if 0 (parity x) 0x04 (flags_sz53 x) ∙ flags_sz53-carry x
