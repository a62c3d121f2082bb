-- ===== src/Cpu/Laws/Add.antt =====
-- src/z80_exec.c, `Add8`: each flag against the sum as a number.
use z80_trace.Common.{
  ℕ, ◌+◌, ◌≤◌, ◌<◌, ◌%◌, bit_and, bit_xor, Bool, true, false, ◌||◌, ◌&&◌, u8, u16,
}
use z80_trace.Common.{test, ◌≡◌, ap, ap₂, ◌∙◌, arith, leb, ltb, ◌==◌}
use z80_trace.Common.Masks.{test-and, test-xor, xor}
use z80_trace.Common.Join.{low_nibble}
use z80_trace.Common.Digits.{bit_at}
use z80_trace.Common.Bits.{test-two-pow}
use z80_trace.Cpu.Flags.{flags_sz53, flag_c, flag_pv, flag_h, flag_z, flag_s, flag_n}
use z80_trace.Cpu.Alu.{complement, add8_flags}
use z80_trace.Cpu.Laws.Flags.{or-false, sign_bit, flags_sz53-sign, flags_sz53-zero}
use z80_trace.Cpu.Laws.Flags.{
  three_flags-carry, three_flags-overflow, three_flags-half, three_flags-zero, three_flags-sign,
  three_flags-subtract,
}
use z80_trace.Cpu.Laws.Flags.{
  flags_sz53-half, flags_sz53-parity, flags_sz53-subtract, flags_sz53-carry,
}

-- The two's complement value of a byte, plus 128.
abbrev pub biased : ℕ → ℕ
biased x = (x + 128) % 256

-- The flags of a sum of two bytes and a carry. A signed sum overflows if it is not in -128 .. 127;
-- with both biases in it, if it is not in 128 .. 383.
pub record AreSumFlags (lhs rhs carry flags : ℕ) : Type 0 where
  pub carry_flag : test flags flag_c ≡ leb 256 (lhs + rhs + carry)
  pub half_flag : test flags flag_h ≡ leb 16 (lhs % 16 + rhs % 16 + carry)
  pub overflow_flag :
      test flags flag_pv
      ≡ (ltb (biased lhs + biased rhs + carry) 128 || leb 384 (biased lhs + biased rhs + carry))
  pub zero_flag : test flags flag_z ≡ ((lhs + rhs + carry) % 256 == 0)
  pub sign_flag : test flags flag_s ≡ leb 128 ((lhs + rhs + carry) % 256)
  pub subtract_flag : test flags flag_n ≡ false

module _ (l r c : ℕ) (hl : l < 256) (hr : r < 256) (hc : c ≤ 1) where
  carry_out : test (u16 (l + r + c)) 0x100 ≡ leb 256 (l + r + c)
  unfolding bit_at
  carry_out = test-two-pow 8 (u16 (l + r + c)) ∙ ground arith

  half_carry : test (bit_and l 0x0f + bit_and r 0x0f + c) 0x10 ≡ leb 16 (l % 16 + r % 16 + c)
  unfolding bit_at
  half_carry = rw (low_nibble l, low_nibble r) (test-two-pow 4 (l % 16 + r % 16 + c) ∙ ground arith)

  signs :
      (xor (xor (leb 128 l) (leb 128 r)) true && xor (leb 128 l) (leb 128 (u8 (u16 (l + r + c)))))
      ≡ (ltb (biased l + biased r + c) 128 || leb 384 (biased l + biased r + c))
  unfolding xor
  signs = ground arith

  overflow :
      test (bit_and (complement (bit_xor l r)) (bit_xor l (u8 (u16 (l + r + c))))) 0x80
      ≡ (ltb (biased l + biased r + c) 128 || leb 384 (biased l + biased r + c))
  unfolding complement
  overflow =
      test-and 7 (complement (bit_xor l r)) (bit_xor l (u8 (u16 (l + r + c))))
      ∙ ap₂ ◌&&◌
          (test-xor 7 (bit_xor l r) 0xffff_ffff
            ∙ ap (λ b. xor b true) (test-xor 7 l r ∙ ap₂ xor (sign_bit l hl) (sign_bit r hr)))
          (test-xor 7 l (u8 (u16 (l + r + c)))
            ∙ ap₂ xor (sign_bit l hl) (sign_bit (u8 (u16 (l + r + c))) (omega arith)))
      ∙ signs

-- For two bytes and a carry of 0 or 1, each flag that `Add8` leaves says what it should of the sum
-- as a number: carry out of 8 bits and out of the low 4, signed overflow, zero and sign.
pub add8_flags-AreSumFlags :
    (lhs rhs carry : ℕ)
    → lhs < 256
    → rhs < 256
    → carry ≤ 1
    → AreSumFlags lhs rhs carry (add8_flags lhs rhs carry)
unfolding add8_flags
add8_flags-AreSumFlags l r c hl hr hc =
    let result : ℕ = u8 (u16 (l + r + c)) in
    let e : result ≡ (l + r + c) % 256 = omega arith in
    let sum : ℕ = u16 (l + r + c) in
    let cy : Bool = test sum 0x100 in
    let pv : Bool = test (bit_and (complement (bit_xor l r)) (bit_xor l result)) 0x80 in
    let hf : Bool = test (bit_and l 0x0f + bit_and r 0x0f + c) 0x10 in
    let base : ℕ = flags_sz53 result in
    record {
      carry_flag =
          three_flags-carry cy pv hf base
          ∙ ap (λ b. cy || b) (flags_sz53-carry result)
          ∙ or-false cy
          ∙ carry_out l r c hl hr hc;
      half_flag =
          three_flags-half cy pv hf base
          ∙ ap (λ b. hf || b) (flags_sz53-half result)
          ∙ or-false hf
          ∙ half_carry l r c hl hr hc;
      overflow_flag =
          three_flags-overflow cy pv hf base
          ∙ ap (λ b. pv || b) (flags_sz53-parity result)
          ∙ or-false pv
          ∙ overflow l r c hl hr hc;
      zero_flag = three_flags-zero cy pv hf base ∙ flags_sz53-zero result ∙ ap (λ n. n == 0) e;
      sign_flag =
          three_flags-sign cy pv hf base
          ∙ flags_sz53-sign result (omega arith)
          ∙ ap (λ n. leb 128 n) e;
      subtract_flag = three_flags-subtract cy pv hf base ∙ flags_sz53-subtract result;
    }
