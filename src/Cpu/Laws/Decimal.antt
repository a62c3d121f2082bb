-- ===== src/Cpu/Laws/Decimal.antt =====
-- src/z80_exec.c, `Daa` after `Add8` or `Sub8`: binary-coded decimal numbers.
use z80_trace.Common.{
  ℕ, ◌+◌, ◌-◌, ◌*◌, ◌/◌, ◌%◌, ◌≤◌, ◌<◌, Bool, true, false, not, ◌||◌, ◌&&◌, bit_and, bit_or,
}
use z80_trace.Common.{u8, u16, test, ltb, leb, if◌then◌else◌, ◌≡◌, refl, ap₂, ◌∙◌, arith}
use z80_trace.Common.Join.{low_nibble}
use z80_trace.Cpu.Flags.{or_if, flags_szp53, flag_c, flag_h, flag_n}
use z80_trace.Cpu.Alu.{add8_flags, sub8_flags, daa_adjust, daa_result, daa_flags}
use z80_trace.Cpu.Laws.Flags.{
  or-false, test-or_if, test-masked, carry_bit_of_byte, flags_szp53-carry,
}
use z80_trace.Common.Masks.{test-or}
use z80_trace.Cpu.Laws.Add.{AreSumFlags, add8_flags-AreSumFlags}
use z80_trace.Cpu.Laws.Sub.{AreDifferenceFlags, sub8_flags-AreDifferenceFlags}

-- Two decimal digits in a byte, and the number that they are.
pub record IsDecimal (x : ℕ) : Type 0 where
  pub tens : x / 16 ≤ 9
  pub units : x % 16 ≤ 9

abbrev pub decimal : ℕ → ℕ
decimal x = x / 16 * 10 + x % 16

-- What is added or subtracted, from the two decisions.
adjustment : Bool → Bool → ℕ
adjustment low high = (if low then 6 else 0) + (if high then 0x60 else 0)

decide : (low high : Bool) → or_if high 0x60 (or_if low 0x06 0) ≡ adjustment low high
unfolding or_if adjustment
decide true true = refl
decide true false = refl
decide false true = refl
decide false false = refl

carry_of_choice : (high : Bool) → test (if high then flag_c else 0) 0x01 ≡ high
carry_of_choice true = refl
carry_of_choice false = refl

low_decision : ℕ → ℕ → Bool
low_decision f value = test f flag_h || (not (test f flag_n) && ltb 9 (value % 16))

high_decision : ℕ → ℕ → Bool
high_decision f value = test f flag_c || (not (test f flag_n) && ltb 0x99 value)

adjusts :
    (f value : ℕ)
    → (daa_adjust f value).0 ≡ adjustment (low_decision f value) (high_decision f value)
unfolding daa_adjust low_decision high_decision
adjusts f value = rw (low_nibble value) (decide _ _)

-- The carry that `DAA` leaves.
carries : (f value : ℕ) → test (daa_flags f value) flag_c ≡ high_decision f value
unfolding daa_flags daa_adjust high_decision
carries f value =
    let high : Bool = high_decision f value in
    let low : Bool = test f flag_h || (not (test f flag_n) && ltb 9 (bit_and value 0x0f)) in
    let kept : ℕ = bit_or (bit_and f flag_n) (flags_szp53 (daa_result f value)) in
    let out : ℕ = if high then flag_c else 0 in
    test-or_if 0 (test (or_if high 0x60 (or_if low 0x06 0)) 0x06) flag_h (u8 (bit_or kept out))
    ∙ carry_bit_of_byte (bit_or kept out)
    ∙ test-or 0 kept out
    ∙ ap₂ ◌||◌
        (test-or 0 (bit_and f flag_n) (flags_szp53 (daa_result f value))
          ∙ ap₂ ◌||◌ (test-masked 0 f flag_n) (flags_szp53-carry (daa_result f value)))
        (carry_of_choice high)

module _ (l r c : ℕ) (hl : IsDecimal l) (hr : IsDecimal r) (hc : c ≤ 1) where
  sum_low :
      (leb 16 (l % 16 + r % 16 + c) || ltb 9 (u8 (u16 (l + r + c)) % 16))
      ≡ leb 10 (l % 16 + r % 16 + c)
  sum_low = let hlu = hl.units in let hru = hr.units in ground arith

  sum_high : (leb 256 (l + r + c) || ltb 0x99 (u8 (u16 (l + r + c)))) ≡ leb 154 (l + r + c)
  sum_high = let hlu = hl.tens in let hru = hr.tens in ground arith

  sum_adjusted :
      decimal (
        u8 (u8 (u16 (l + r + c)) + adjustment (leb 10 (l % 16 + r % 16 + c)) (leb 154 (l + r + c))))
      ≡ (decimal l + decimal r + c) % 100
  unfolding adjustment
  sum_adjusted =
      let h1 = hl.units in let h2 = hr.units in let h3 = hl.tens in let h4 = hr.tens in ground arith

  sum-IsDecimal :
      IsDecimal (
        u8 (u8 (u16 (l + r + c)) + adjustment (leb 10 (l % 16 + r % 16 + c)) (leb 154 (l + r + c))))
  unfolding adjustment
  sum-IsDecimal =
      let h1 = hl.units in
      let h2 = hr.units in
      let h3 = hl.tens in let h4 = hr.tens in record { tens = ground arith; units = ground arith }

  sum_carry : leb 154 (l + r + c) ≡ leb 100 (decimal l + decimal r + c)
  sum_carry =
      let h1 = hl.units in let h2 = hr.units in let h3 = hl.tens in let h4 = hr.tens in ground arith

  difference_adjusted :
      decimal (
        u8 (
          u8 (u16 (l + 65536 - r - c))
          + 256
          - adjustment (ltb (l % 16) (r % 16 + c)) (ltb l (r + c))))
      ≡ (decimal l + 100 - decimal r - c) % 100
  unfolding adjustment
  difference_adjusted =
      let h1 = hl.units in let h2 = hr.units in let h3 = hl.tens in let h4 = hr.tens in ground arith

  difference-IsDecimal : IsDecimal (
      u8 (
        u8 (u16 (l + 65536 - r - c))
        + 256
        - adjustment (ltb (l % 16) (r % 16 + c)) (ltb l (r + c))))
  unfolding adjustment
  difference-IsDecimal =
      let h1 = hl.units in
      let h2 = hr.units in
      let h3 = hl.tens in let h4 = hr.tens in record { tens = ground arith; units = ground arith }

  difference_carry : ltb l (r + c) ≡ ltb (decimal l) (decimal r + c)
  difference_carry =
      let h1 = hl.units in let h2 = hr.units in let h3 = hl.tens in let h4 = hr.tens in ground arith

  sum_decisions_low :
      AreSumFlags l r c (add8_flags l r c)
      → low_decision (add8_flags l r c) (u8 (u16 (l + r + c))) ≡ leb 10 (l % 16 + r % 16 + c)
  unfolding low_decision
  sum_decisions_low ok = rw (ok.half_flag, ok.subtract_flag) sum_low

  sum_decisions_high :
      AreSumFlags l r c (add8_flags l r c)
      → high_decision (add8_flags l r c) (u8 (u16 (l + r + c))) ≡ leb 154 (l + r + c)
  unfolding high_decision
  sum_decisions_high ok = rw (ok.carry_flag, ok.subtract_flag) sum_high

module _ (l r c : ℕ) (ok : AreDifferenceFlags l r c (sub8_flags l r c)) where
  difference_low :
      low_decision (sub8_flags l r c) (u8 (u16 (l + 65536 - r - c))) ≡ ltb (l % 16) (r % 16 + c)
  unfolding low_decision
  difference_low = rw (ok.half_flag, ok.subtract_flag) (or-false (ltb (l % 16) (r % 16 + c)))

  difference_high : high_decision (sub8_flags l r c) (u8 (u16 (l + 65536 - r - c))) ≡ ltb l (r + c)
  unfolding high_decision
  difference_high = rw (ok.carry_flag, ok.subtract_flag) (or-false (ltb l (r + c)))

byte_of_decimal : (x : ℕ) → IsDecimal x → x < 256
byte_of_decimal x h = let h1 = h.tens in omega arith

-- `ADD` or `ADC` of two decimal bytes and then `DAA` is the decimal sum: the result is two decimal
-- digits, which are the last two of the sum, and the carry flag is its third.
pub daa_result-add8_flags :
    (lhs rhs carry : ℕ)
    → IsDecimal lhs
    → IsDecimal rhs
    → carry ≤ 1
    → let flags = add8_flags lhs rhs carry in
      let sum = u8 (u16 (lhs + rhs + carry)) in
      IsDecimal (daa_result flags sum)
      × (decimal (daa_result flags sum) ≡ (decimal lhs + decimal rhs + carry) % 100)
      × (test (daa_flags flags sum) flag_c ≡ leb 100 (decimal lhs + decimal rhs + carry))
unfolding daa_result
daa_result-add8_flags l r c hl hr hc =
    let ok : AreSumFlags l r c (add8_flags l r c) =
      add8_flags-AreSumFlags l r c (byte_of_decimal l hl) (byte_of_decimal r hr) hc in
    let sum : ℕ = u8 (u16 (l + r + c)) in
    let low : low_decision (add8_flags l r c) sum ≡ leb 10 (l % 16 + r % 16 + c) =
      sum_decisions_low l r c hl hr hc ok in
    let high : high_decision (add8_flags l r c) sum ≡ leb 154 (l + r + c) =
      sum_decisions_high l r c hl hr hc ok in
    (
      rw (ok.subtract_flag, adjusts (add8_flags l r c) sum, low, high)
          (sum-IsDecimal l r c hl hr hc),
      rw (ok.subtract_flag, adjusts (add8_flags l r c) sum, low, high)
          (sum_adjusted l r c hl hr hc),
      carries (add8_flags l r c) sum ∙ high ∙ sum_carry l r c hl hr hc,
    )

-- `SUB` or `SBC` of two decimal bytes and then `DAA` is the decimal difference: the result is two
-- decimal digits, which are those of the difference modulo 100, and the carry flag is the borrow.
pub daa_result-sub8_flags :
    (lhs rhs carry : ℕ)
    → IsDecimal lhs
    → IsDecimal rhs
    → carry ≤ 1
    → let flags = sub8_flags lhs rhs carry in
      let diff = u8 (u16 (lhs + 65536 - rhs - carry)) in
      IsDecimal (daa_result flags diff)
      × (decimal (daa_result flags diff) ≡ (decimal lhs + 100 - decimal rhs - carry) % 100)
      × (test (daa_flags flags diff) flag_c ≡ ltb (decimal lhs) (decimal rhs + carry))
unfolding daa_result
daa_result-sub8_flags l r c hl hr hc =
    let ok : AreDifferenceFlags l r c (sub8_flags l r c) =
      sub8_flags-AreDifferenceFlags l r c (byte_of_decimal l hl) (byte_of_decimal r hr) hc in
    let diff : ℕ = u8 (u16 (l + 65536 - r - c)) in
    let low : low_decision (sub8_flags l r c) diff ≡ ltb (l % 16) (r % 16 + c) =
      difference_low l r c ok in
    let high : high_decision (sub8_flags l r c) diff ≡ ltb l (r + c) = difference_high l r c ok in
    (
      rw (ok.subtract_flag, adjusts (sub8_flags l r c) diff, low, high)
          (difference-IsDecimal l r c hl hr hc),
      rw (ok.subtract_flag, adjusts (sub8_flags l r c) diff, low, high)
          (difference_adjusted l r c hl hr hc),
      carries (sub8_flags l r c) diff ∙ high ∙ difference_carry l r c hl hr hc,
    )
