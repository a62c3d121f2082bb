-- ===== src/Cpu/Valid/Alu.antt =====
-- The arithmetic gives bytes and words, and flags that fit their register.
use z80_trace.Common.{ℕ, ◌%◌, Bool, arith, ◌==◌, if_either}
use z80_trace.Common.Bits.{bit_and-lt, bit_or-lt}
use z80_trace.Cpu.State.{StateZ80}
use z80_trace.Cpu.Registers.{set_f}
use z80_trace.Cpu.Flags.{
  or_if, parity, flags_sz53, flags_szp53, flag_s, flag_z, flag_c, flag_n, flag_pv, flag_h,
}
use z80_trace.Cpu.Alu.{add8_flags, sub8_flags, inc8_flags, dec8_flags, compare8_flags, add16_flags}
use z80_trace.Cpu.Alu.{add16_carry_flags, sub16_carry_flags, add8, sub8, inc8, dec8, logic_and}
use z80_trace.Cpu.Alu.{logic_or, logic_xor, compare8, add16, add16_carry, sub16_carry, rotate_cases}
use z80_trace.Cpu.Alu.{rotate_cb, rotate_left_carry, rotate_right_carry, carry_of}
use z80_trace.Cpu.Alu.{daa_result, daa_flags, daa, bit_test_flags, bit_test}
use z80_trace.Cpu.Valid.Defs.{IsByte, IsWord, IsState}
use z80_trace.Cpu.Valid.Registers.{set_f-IsState, high_byte-IsByte}

pub u8-IsByte : (n : ℕ) → IsByte (n % 256)
u8-IsByte n = omega arith

pub u16-IsWord : (n : ℕ) → IsWord (n % 65536)
u16-IsWord n = omega arith

pub or_if-IsByte :
    (b : Bool) (mask flags : ℕ) → IsByte mask → IsByte flags → IsByte (or_if b mask flags)
unfolding or_if
or_if-IsByte b mask flags hm hf = if_either IsByte b (bit_or-lt 8 flags mask hf hm) hf

flags_sz53-IsByte : (value : ℕ) → IsByte value → IsByte (flags_sz53 value)
unfolding flags_sz53
flags_sz53-IsByte value h =
    or_if-IsByte (value == 0) flag_z _ (omega arith) (bit_and-lt 8 value 0xa8 h (omega arith))

flags_szp53-IsByte : (value : ℕ) → IsByte value → IsByte (flags_szp53 value)
unfolding flags_szp53
flags_szp53-IsByte value h =
    or_if-IsByte (parity value) _ _ (omega arith) (flags_sz53-IsByte value h)

add8_flags-IsByte : (lhs rhs carry : ℕ) → IsByte (add8_flags lhs rhs carry)
unfolding add8_flags
add8_flags-IsByte lhs rhs carry = or_if-IsByte _ flag_c _ (omega arith) (
    or_if-IsByte _ flag_pv _ (omega arith)
      (or_if-IsByte _ flag_h _ (omega arith) (flags_sz53-IsByte _ (u8-IsByte _))))

sub8_flags-IsByte : (lhs rhs carry : ℕ) → IsByte (sub8_flags lhs rhs carry)
unfolding sub8_flags
sub8_flags-IsByte lhs rhs carry = or_if-IsByte _ flag_c _ (omega arith) (
    or_if-IsByte _ flag_pv _ (omega arith) (
      or_if-IsByte _ flag_h _ (omega arith)
        (bit_or-lt 8 _ flag_n (flags_sz53-IsByte _ (u8-IsByte _)) (omega arith))))

inc8_flags-IsByte : (f value : ℕ) → IsByte f → IsByte (inc8_flags f value)
unfolding inc8_flags
inc8_flags-IsByte f value hf = or_if-IsByte _ flag_pv _ (omega arith) (
    or_if-IsByte _ flag_h _ (omega arith) (
      bit_or-lt 8 _ _ (bit_and-lt 8 f flag_c hf (omega arith)) (flags_sz53-IsByte _ (u8-IsByte _))))

dec8_flags-IsByte : (f value : ℕ) → IsByte f → IsByte (dec8_flags f value)
unfolding dec8_flags
dec8_flags-IsByte f value hf = or_if-IsByte _ flag_pv _ (omega arith) (
    or_if-IsByte _ flag_h _ (omega arith) (
      bit_or-lt 8 _ _ (bit_and-lt 8 f flag_c hf (omega arith))
        (bit_or-lt 8 _ flag_n (flags_sz53-IsByte _ (u8-IsByte _)) (omega arith))))

compare8_flags-IsByte : (lhs rhs : ℕ) → IsByte rhs → IsByte (compare8_flags lhs rhs)
unfolding compare8_flags
compare8_flags-IsByte lhs rhs hr = or_if-IsByte _ flag_c _ (omega arith) (
    or_if-IsByte _ flag_pv _ (omega arith) (
      or_if-IsByte _ flag_h _ (omega arith) (
        or_if-IsByte _ flag_z _ (omega arith) (
          bit_or-lt 8 _ flag_n
            (bit_or-lt 8 _ _ (bit_and-lt 8 _ flag_s (u8-IsByte _) (omega arith))
              (bit_and-lt 8 rhs 0x28 hr (omega arith)))
            (omega arith)))))

add16_flags-IsByte : (f lhs rhs : ℕ) → IsByte f → IsByte (add16_flags f lhs rhs)
unfolding add16_flags
add16_flags-IsByte f lhs rhs hf = or_if-IsByte _ flag_c _ (omega arith) (
    or_if-IsByte _ flag_h _ (omega arith) (
      bit_or-lt 8 _ _ (bit_and-lt 8 f 0xc4 hf (omega arith))
        (bit_and-lt 8 _ 0x28 (high_byte-IsByte _) (omega arith))))

add16_carry_flags-IsByte : (lhs rhs carry : ℕ) → IsByte (add16_carry_flags lhs rhs carry)
unfolding add16_carry_flags
add16_carry_flags-IsByte lhs rhs carry = or_if-IsByte _ flag_c _ (omega arith) (
    or_if-IsByte _ flag_pv _ (omega arith) (
      or_if-IsByte _ flag_h _ (omega arith) (
        or_if-IsByte _ flag_z _ (omega arith)
          (bit_and-lt 8 _ 0xa8 (high_byte-IsByte _) (omega arith)))))

sub16_carry_flags-IsByte : (lhs rhs carry : ℕ) → IsByte (sub16_carry_flags lhs rhs carry)
unfolding sub16_carry_flags
sub16_carry_flags-IsByte lhs rhs carry = or_if-IsByte _ flag_c _ (omega arith) (
    or_if-IsByte _ flag_pv _ (omega arith) (
      or_if-IsByte _ flag_h _ (omega arith) (
        or_if-IsByte _ flag_z _ (omega arith) (
          bit_or-lt 8 _ flag_n (bit_and-lt 8 _ 0xa8 (high_byte-IsByte _) (omega arith))
            (omega arith)))))

rotate_cases-IsByte : (carry_in value kind : ℕ) → IsByte (rotate_cases carry_in value kind).1
unfolding rotate_cases rotate_left_carry rotate_right_carry
rotate_cases-IsByte carry_in value kind = ground arith

daa_result-IsByte : (f value : ℕ) → IsByte (daa_result f value)
unfolding daa_result
daa_result-IsByte f value = if_either IsByte _ (u8-IsByte _) (u8-IsByte _)

daa_flags-IsByte : (f value : ℕ) → IsByte (daa_flags f value)
unfolding daa_flags
daa_flags-IsByte f value = or_if-IsByte _ flag_h _ (omega arith) (u8-IsByte _)

bit_test_flags-IsByte : (f value bit : ℕ) → IsByte (bit_test_flags f value bit)
unfolding bit_test_flags
bit_test_flags-IsByte f value bit =
    or_if-IsByte _ flag_s _ (omega arith) (or_if-IsByte _ 0x44 _ (omega arith) (u8-IsByte _))

module _ {U : Type 0} (s : StateZ80 U) (v : IsState s) where
  pub add8-IsState :
      (lhs rhs carry : ℕ) → IsByte (add8 lhs rhs carry s).0 × IsState (add8 lhs rhs carry s).1
  unfolding add8 set_f
  add8-IsState lhs rhs carry = (u8-IsByte _, set_f-IsState s v _ (add8_flags-IsByte lhs rhs carry))

  pub sub8-IsState :
      (lhs rhs carry : ℕ) (store : Bool)
      → IsByte lhs
      → IsByte (sub8 lhs rhs carry store s).0 × IsState (sub8 lhs rhs carry store s).1
  unfolding sub8 set_f
  sub8-IsState lhs rhs carry store hl = (
    if_either IsByte store (u8-IsByte _) hl,
    set_f-IsState s v _ (sub8_flags-IsByte lhs rhs carry),
  )

  pub inc8-IsState : (value : ℕ) → IsByte (inc8 value s).0 × IsState (inc8 value s).1
  unfolding inc8 set_f
  inc8-IsState value = (u8-IsByte _, set_f-IsState s v _ (inc8_flags-IsByte s.f value v.f_byte))

  pub dec8-IsState : (value : ℕ) → IsByte (dec8 value s).0 × IsState (dec8 value s).1
  unfolding dec8 set_f
  dec8-IsState value = (u8-IsByte _, set_f-IsState s v _ (dec8_flags-IsByte s.f value v.f_byte))

  pub logic_and-IsState :
      (lhs rhs : ℕ) → IsByte (logic_and lhs rhs s).0 × IsState (logic_and lhs rhs s).1
  unfolding logic_and set_f
  logic_and-IsState lhs rhs = (u8-IsByte _, set_f-IsState s v _ (u8-IsByte _))

  pub logic_or-IsState :
      (lhs rhs : ℕ) → IsByte (logic_or lhs rhs s).0 × IsState (logic_or lhs rhs s).1
  unfolding logic_or set_f
  logic_or-IsState lhs rhs = (u8-IsByte _, set_f-IsState s v _ (flags_szp53-IsByte _ (u8-IsByte _)))

  pub logic_xor-IsState :
      (lhs rhs : ℕ) → IsByte (logic_xor lhs rhs s).0 × IsState (logic_xor lhs rhs s).1
  unfolding logic_xor set_f
  logic_xor-IsState lhs rhs =
      (u8-IsByte _, set_f-IsState s v _ (flags_szp53-IsByte _ (u8-IsByte _)))

  pub compare8-IsState : (lhs rhs : ℕ) → IsByte rhs → IsState (compare8 lhs rhs s)
  unfolding compare8 set_f
  compare8-IsState lhs rhs hr = set_f-IsState s v _ (compare8_flags-IsByte lhs rhs hr)

  pub add16-IsState : (lhs rhs : ℕ) → IsWord (add16 lhs rhs s).0 × IsState (add16 lhs rhs s).1
  unfolding add16 set_f
  add16-IsState lhs rhs =
      (u16-IsWord _, set_f-IsState s v _ (add16_flags-IsByte s.f lhs rhs v.f_byte))

  pub add16_carry-IsState :
      (lhs rhs carry : ℕ)
      → IsWord (add16_carry lhs rhs carry s).0 × IsState (add16_carry lhs rhs carry s).1
  unfolding add16_carry set_f
  add16_carry-IsState lhs rhs carry =
      (u16-IsWord _, set_f-IsState s v _ (add16_carry_flags-IsByte lhs rhs carry))

  pub sub16_carry-IsState :
      (lhs rhs carry : ℕ)
      → IsWord (sub16_carry lhs rhs carry s).0 × IsState (sub16_carry lhs rhs carry s).1
  unfolding sub16_carry set_f
  sub16_carry-IsState lhs rhs carry =
      (u16-IsWord _, set_f-IsState s v _ (sub16_carry_flags-IsByte lhs rhs carry))

  pub rotate_cb-IsState :
      (value kind : ℕ) → IsByte (rotate_cb value kind s).0 × IsState (rotate_cb value kind s).1
  unfolding rotate_cb set_f
  rotate_cb-IsState value kind =
      let hr = rotate_cases-IsByte (carry_of s.f) value kind in
      (hr, set_f-IsState s v _ (or_if-IsByte _ flag_c _ (omega arith) (flags_szp53-IsByte _ hr)))

  pub daa-IsState : (value : ℕ) → IsByte (daa value s).0 × IsState (daa value s).1
  unfolding daa set_f
  daa-IsState value =
      (daa_result-IsByte s.f value, set_f-IsState s v _ (daa_flags-IsByte s.f value))

  pub bit_test-IsState : (value bit : ℕ) → IsState (bit_test value bit s)
  unfolding bit_test set_f
  bit_test-IsState value bit = set_f-IsState s v _ (bit_test_flags-IsByte s.f value bit)
