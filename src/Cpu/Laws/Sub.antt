-- ===== src/Cpu/Laws/Sub.antt =====
-- src/z80_exec.c, `Sub8` and `Compare8`: each flag against the difference as a number.
use z80_trace.Common.{
  ℕ, ◌+◌, ◌-◌, ◌≤◌, ◌<◌, ◌%◌, ◌/◌, bit_and, bit_xor, Bool, true, false, ◌||◌, ◌&&◌, u8, u16,
}
use z80_trace.Common.{inl, inr, Bool-cases, test, ◌≡◌, ap, ap₂, ◌∙◌, arith, leb, ltb, ◌==◌}
use z80_trace.Common.Masks.{test-and, test-xor, xor}
use z80_trace.Common.Digits.{bit_at}
use z80_trace.Common.Bits.{test-two-pow}
use z80_trace.Cpu.Flags.{flag_c, flag_pv, flag_h, flag_z, flag_s, flag_n}
use z80_trace.Cpu.Alu.{sub8_flags, compare8_flags}
use z80_trace.Cpu.Laws.Flags.{or-false, sign_bit, IsSubBase, sub_base, compare_base}
use z80_trace.Cpu.Laws.Flags.{
  three_flags, three_flags-carry, three_flags-overflow, three_flags-half, three_flags-zero,
}
use z80_trace.Cpu.Laws.Flags.{three_flags-sign, three_flags-subtract}
use z80_trace.Cpu.Laws.Add.{biased}

-- The flags of the difference of two bytes, less a carry. A signed difference overflows if it is
-- below -128 or above 127.
pub record AreDifferenceFlags (lhs rhs carry flags : ℕ) : Type 0 where
  pub carry_flag : test flags flag_c ≡ ltb lhs (rhs + carry)
  pub half_flag : test flags flag_h ≡ ltb (lhs % 16) (rhs % 16 + carry)
  pub overflow_flag :
      test flags flag_pv
      ≡ (ltb (biased lhs + 128) (biased rhs + carry) || leb (biased rhs + carry + 128) (biased lhs))
  pub zero_flag : test flags flag_z ≡ ((lhs + 256 - rhs - carry) % 256 == 0)
  pub sign_flag : test flags flag_s ≡ leb 128 ((lhs + 256 - rhs - carry) % 256)
  pub subtract_flag : test flags flag_n ≡ true

xor_borrowed : (x y : ℕ) → x ≤ 1 → y ≤ 1 → xor (xor (x == 1) (y == 1)) ((x + y + 1) % 2 == 1) ≡ true
unfolding xor
xor_borrowed x y hx hy = ground arith

xor_kept : (x y : ℕ) → x ≤ 1 → y ≤ 1 → xor (xor (x == 1) (y == 1)) ((x + y) % 2 == 1) ≡ false
unfolding xor
xor_kept x y hx hy = ground arith

module _ (l r c : ℕ) (hl : l < 256) (hr : r < 256) (hc : c ≤ 1) where
  borrow_out : test (u16 (l + 65536 - r - c)) 0x100 ≡ ltb l (r + c)
  unfolding bit_at
  borrow_out = test-two-pow 8 (u16 (l + 65536 - r - c)) ∙ ground arith

  digit_borrowed :
      l % 16 < r % 16 + c
      → u8 (u16 (l + 65536 - r - c)) / 16 % 2 ≡ (l / 16 % 2 + r / 16 % 2 + 1) % 2
  digit_borrowed h = omega arith

  digit_kept :
      r % 16 + c ≤ l % 16 → u8 (u16 (l + 65536 - r - c)) / 16 % 2 ≡ (l / 16 % 2 + r / 16 % 2) % 2
  digit_kept h = omega arith

  half_digits :
      xor (xor (l / 16 % 2 == 1) (r / 16 % 2 == 1)) (u8 (u16 (l + 65536 - r - c)) / 16 % 2 == 1)
      ≡ ltb (l % 16) (r % 16 + c)
  half_digits = elim (Bool-cases (ltb (l % 16) (r % 16 + c))) [
    | inl below ↦
        rw (below, digit_borrowed (ground arith))
          (xor_borrowed (l / 16 % 2) (r / 16 % 2) (omega arith) (omega arith))
    | inr above ↦
        rw (above, digit_kept (ground arith))
          (xor_kept (l / 16 % 2) (r / 16 % 2) (omega arith) (omega arith))
  ]

  digit_four : (x : ℕ) → test x 0x10 ≡ (x / 16 % 2 == 1)
  unfolding bit_at
  digit_four x = test-two-pow 4 x ∙ ap (λ n. n % 2 == 1) (omega arith)

  half_borrow :
      test (bit_xor (bit_xor l r) (u8 (u16 (l + 65536 - r - c)))) 0x10 ≡ ltb (l % 16) (r % 16 + c)
  half_borrow =
      let result = u8 (u16 (l + 65536 - r - c)) in
      test-xor 4 (bit_xor l r) result
      ∙ ap₂ xor (test-xor 4 l r ∙ ap₂ xor (digit_four l) (digit_four r)) (digit_four result)
      ∙ half_digits

  signs :
      (xor (leb 128 l) (leb 128 r) && xor (leb 128 l) (leb 128 (u8 (u16 (l + 65536 - r - c)))))
      ≡ (ltb (biased l + 128) (biased r + c) || leb (biased r + c + 128) (biased l))
  unfolding xor
  signs = ground arith

  overflow :
      test (bit_and (bit_xor l r) (bit_xor l (u8 (u16 (l + 65536 - r - c))))) 0x80
      ≡ (ltb (biased l + 128) (biased r + c) || leb (biased r + c + 128) (biased l))
  overflow =
      let result = u8 (u16 (l + 65536 - r - c)) in
      test-and 7 (bit_xor l r) (bit_xor l result)
      ∙ ap₂ ◌&&◌ (test-xor 7 l r ∙ ap₂ xor (sign_bit l hl) (sign_bit r hr))
          (test-xor 7 l result ∙ ap₂ xor (sign_bit l hl) (sign_bit result (omega arith)))
      ∙ signs

  -- Over any base that has the sign and the zero flag of the result.
  difference_flags :
      (base : ℕ)
      → IsSubBase (u8 (u16 (l + 65536 - r - c))) base
      → AreDifferenceFlags l r c (
          three_flags
            (test (u16 (l + 65536 - r - c)) 0x100)
            (test (bit_and (bit_xor l r) (bit_xor l (u8 (u16 (l + 65536 - r - c))))) 0x80)
            (test (bit_xor (bit_xor l r) (u8 (u16 (l + 65536 - r - c)))) 0x10)
            base)
  difference_flags base ok =
      let result : ℕ = u8 (u16 (l + 65536 - r - c)) in
      let e : result ≡ (l + 256 - r - c) % 256 = omega arith in
      let cy : Bool = test (u16 (l + 65536 - r - c)) 0x100 in
      let pv : Bool = test (bit_and (bit_xor l r) (bit_xor l result)) 0x80 in
      let hf : Bool = test (bit_xor (bit_xor l r) result) 0x10 in
      record {
        carry_flag =
            three_flags-carry cy pv hf base
            ∙ ap (λ b. cy || b) ok.base_carry
            ∙ or-false cy
            ∙ borrow_out;
        half_flag =
            three_flags-half cy pv hf base
            ∙ ap (λ b. hf || b) ok.base_half
            ∙ or-false hf
            ∙ half_borrow;
        overflow_flag =
            three_flags-overflow cy pv hf base
            ∙ ap (λ b. pv || b) ok.base_parity
            ∙ or-false pv
            ∙ overflow;
        zero_flag = three_flags-zero cy pv hf base ∙ ok.base_zero ∙ ap (λ n. n == 0) e;
        sign_flag = three_flags-sign cy pv hf base ∙ ok.base_sign ∙ ap (λ n. leb 128 n) e;
        subtract_flag = three_flags-subtract cy pv hf base ∙ ok.base_subtract;
      }

-- For two bytes and a carry of 0 or 1, each flag that `Sub8` leaves says what it should of the
-- difference as a number: borrow out of 8 bits and out of the low 4, signed overflow, zero, sign.
pub sub8_flags-AreDifferenceFlags :
    (lhs rhs carry : ℕ)
    → lhs < 256
    → rhs < 256
    → carry ≤ 1
    → AreDifferenceFlags lhs rhs carry (sub8_flags lhs rhs carry)
unfolding sub8_flags
sub8_flags-AreDifferenceFlags l r c hl hr hc =
    difference_flags l r c hl hr hc _ (sub_base (u8 (u16 (l + 65536 - r - c))) (omega arith))

-- For two bytes, `Compare8` leaves in those flags what a subtraction without carry leaves.
pub compare8_flags-AreDifferenceFlags :
    (lhs rhs : ℕ) → lhs < 256 → rhs < 256 → AreDifferenceFlags lhs rhs 0 (compare8_flags lhs rhs)
unfolding compare8_flags
compare8_flags-AreDifferenceFlags l r hl hr =
    let e : l + 65536 - r - 0 ≡ l + 65536 - r = omega arith in
    rw e at (
      difference_flags l r 0 hl hr (omega arith) _
        (compare_base (u8 (u16 (l + 65536 - r - 0))) r (omega arith)))
