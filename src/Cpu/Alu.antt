-- ===== src/Cpu/Alu.antt =====
-- src/z80_exec.c, lines 446-700: the arithmetic and logic of the processor. A function that sets
-- `state->f` and returns a result is modelled with both. An operation on `int` that the source
-- narrows is narrowed here in the same place; 2 ^ 16 or 2 ^ 32 is added before a subtraction that
-- can go below zero. `~x` on a 32-bit `int` is `x` with its 32 digits flipped.
use z80_trace.Common.{ℕ, ◌+◌, ◌-◌, bit_and, bit_or, bit_xor, u8, u16, u32, test, ◌==◌, ltb, not}
use z80_trace.Common.{Bool, ◌&&◌, ◌||◌, ◌<<<◌, ◌>>>◌, if◌then◌else◌}
use z80_trace.Cpu.State.{StateZ80}
use z80_trace.Cpu.Monad.{OnState}
use z80_trace.Cpu.Registers.{high_byte}
use z80_trace.Cpu.Flags.{or_if, flags_sz53, flags_szp53, flag_s, flag_z, flag_h, flag_pv, flag_n}
use z80_trace.Cpu.Flags.{flag_c}

-- `~x`.
unfoldable pub complement : ℕ → ℕ
complement x = bit_xor x 0xffff_ffff

-- `(state->f & FLAG_C) ? 1 : 0`.
abbrev pub carry_of : ℕ → ℕ
carry_of f = if test f flag_c then 1 else 0

unfoldable pub add8_flags : ℕ → ℕ → ℕ → ℕ
add8_flags lhs rhs carry =
    let sum = u16 (lhs + rhs + carry) in
    let result = u8 sum in
    or_if (test sum 0x100) flag_c (
      or_if (test (bit_and (complement (bit_xor lhs rhs)) (bit_xor lhs result)) 0x80) flag_pv (
        or_if (test (bit_and lhs 0x0f + bit_and rhs 0x0f + carry) 0x10) flag_h (flags_sz53 result)))

unfoldable pub sub8_flags : ℕ → ℕ → ℕ → ℕ
sub8_flags lhs rhs carry =
    let diff = u16 (lhs + 65536 - rhs - carry) in
    let result = u8 diff in
    or_if (test diff 0x100) flag_c (
      or_if (test (bit_and (bit_xor lhs rhs) (bit_xor lhs result)) 0x80) flag_pv (
        or_if (test (bit_xor (bit_xor lhs rhs) result) 0x10) flag_h
          (bit_or (flags_sz53 result) flag_n)))

unfoldable pub inc8_flags : ℕ → ℕ → ℕ
inc8_flags f value = or_if (value == 0x7f) flag_pv (
    or_if (test (bit_and value 0x0f + 1) 0x10) flag_h
      (bit_or (bit_and f flag_c) (flags_sz53 (u8 (value + 1)))))

unfoldable pub dec8_flags : ℕ → ℕ → ℕ
dec8_flags f value = or_if (value == 0x80) flag_pv (
    or_if (bit_and value 0x0f == 0) flag_h
      (bit_or (bit_and f flag_c) (bit_or (flags_sz53 (u8 (value + 256 - 1))) flag_n)))

unfoldable pub compare8_flags : ℕ → ℕ → ℕ
compare8_flags lhs rhs =
    let diff = u16 (lhs + 65536 - rhs) in
    let result = u8 diff in
    or_if (test diff 0x100) flag_c (
      or_if (test (bit_and (bit_xor lhs rhs) (bit_xor lhs result)) 0x80) flag_pv (
        or_if (test (bit_xor (bit_xor lhs rhs) result) 0x10) flag_h (
          or_if (result == 0) flag_z
            (bit_or (bit_or (bit_and result flag_s) (bit_and rhs 0x28)) flag_n))))

unfoldable pub add16_flags : ℕ → ℕ → ℕ → ℕ
add16_flags f lhs rhs =
    let sum = u32 (lhs + rhs) in
    let result = u16 sum in
    or_if (test sum 0x10000) flag_c (
      or_if (test (bit_and lhs 0x0fff + bit_and rhs 0x0fff) 0x1000) flag_h
        (bit_or (bit_and f 0xc4) (bit_and (high_byte result) 0x28)))

unfoldable pub add16_carry_flags : ℕ → ℕ → ℕ → ℕ
add16_carry_flags lhs rhs carry =
    let sum = u32 (lhs + rhs + carry) in
    let result = u16 sum in
    or_if (test sum 0x10000) flag_c (
      or_if (test (bit_and (complement (bit_xor lhs rhs)) (bit_xor lhs result)) 0x8000) flag_pv (
        or_if (test (bit_and lhs 0x0fff + bit_and rhs 0x0fff + carry) 0x1000) flag_h
          (or_if (result == 0) flag_z (bit_and (high_byte result) 0xa8))))

unfoldable pub sub16_carry_flags : ℕ → ℕ → ℕ → ℕ
sub16_carry_flags lhs rhs carry =
    let diff = u32 (lhs + 4294967296 - rhs - carry) in
    let result = u16 diff in
    or_if (test diff 0x10000) flag_c (
      or_if (test (bit_and (bit_xor lhs rhs) (bit_xor lhs result)) 0x8000) flag_pv (
        or_if (test (bit_xor (bit_xor lhs rhs) result) 0x1000) flag_h
          (or_if (result == 0) flag_z (bit_or (bit_and (high_byte result) 0xa8) flag_n))))

module _ {U : Type 0} where
  unfoldable pub add8 : ℕ → ℕ → ℕ → OnState U ℕ
  add8 lhs rhs carry s = (u8 (u16 (lhs + rhs + carry)), record s { f = add8_flags lhs rhs carry })

  -- Every call of `Sub8` stores the result (`store_result` is 1).
  unfoldable pub sub8 : ℕ → ℕ → ℕ → Bool → OnState U ℕ
  sub8 lhs rhs carry store_result s = (
    if store_result then u8 (u16 (lhs + 65536 - rhs - carry)) else lhs,
    record s { f = sub8_flags lhs rhs carry },
  )

  unfoldable pub inc8 : ℕ → OnState U ℕ
  inc8 value s = (u8 (value + 1), record s { f = inc8_flags s.f value })

  unfoldable pub dec8 : ℕ → OnState U ℕ
  dec8 value s = (u8 (value + 256 - 1), record s { f = dec8_flags s.f value })

  unfoldable pub logic_and : ℕ → ℕ → OnState U ℕ
  logic_and lhs rhs s =
      let result = u8 (bit_and lhs rhs) in
      (result, record s { f = u8 (bit_or (flags_szp53 result) flag_h) })

  unfoldable pub logic_or : ℕ → ℕ → OnState U ℕ
  logic_or lhs rhs s =
      let result = u8 (bit_or lhs rhs) in (result, record s { f = flags_szp53 result })

  unfoldable pub logic_xor : ℕ → ℕ → OnState U ℕ
  logic_xor lhs rhs s =
      let result = u8 (bit_xor lhs rhs) in (result, record s { f = flags_szp53 result })

  unfoldable pub compare8 : ℕ → ℕ → StateZ80 U → StateZ80 U
  compare8 lhs rhs s = record s { f = compare8_flags lhs rhs }

  unfoldable pub add16 : ℕ → ℕ → OnState U ℕ
  add16 lhs rhs s = (u16 (u32 (lhs + rhs)), record s { f = add16_flags s.f lhs rhs })

  unfoldable pub add16_carry : ℕ → ℕ → ℕ → OnState U ℕ
  add16_carry lhs rhs carry s =
      (u16 (u32 (lhs + rhs + carry)), record s { f = add16_carry_flags lhs rhs carry })

  unfoldable pub sub16_carry : ℕ → ℕ → ℕ → OnState U ℕ
  sub16_carry lhs rhs carry s =
      (u16 (u32 (lhs + 4294967296 - rhs - carry)), record s { f = sub16_carry_flags lhs rhs carry })

unfoldable pub rotate_left_carry : ℕ → ℕ
rotate_left_carry value = u8 (bit_or (value <<< 1) (value >>> 7))

unfoldable pub rotate_right_carry : ℕ → ℕ
rotate_right_carry value = u8 (bit_or (value >>> 1) (value <<< 7))

-- `carry_out` and `result` of the switch in `RotateCB`, from the carry that comes in.
unfoldable pub rotate_cases : ℕ → ℕ → ℕ → ℕ × ℕ
rotate_cases carry_in value kind =
    if kind == 0
    then (bit_and (value >>> 7) 1, rotate_left_carry value)
    else (if kind == 1
        then (bit_and value 1, rotate_right_carry value)
        else (if kind == 2
            then (bit_and (value >>> 7) 1, u8 (bit_or (value <<< 1) carry_in))
            else (if kind == 3
                then (bit_and value 1, u8 (bit_or (value >>> 1) (carry_in <<< 7)))
                else (if kind == 4
                    then (bit_and (value >>> 7) 1, u8 (value <<< 1))
                    else (if kind == 5
                        then (bit_and value 1, u8 (bit_or (value >>> 1) (bit_and value 0x80)))
                        else (if kind == 6
                            then (bit_and (value >>> 7) 1, u8 (bit_or (value <<< 1) 1))
                            else (bit_and value 1, u8 (value >>> 1))))))))

-- `Daa`: the adjustment with the carry that goes out, then the result and the flags.
unfoldable pub daa_adjust : ℕ → ℕ → ℕ × ℕ
daa_adjust f value =
    let low = test f flag_h || (not (test f flag_n) && ltb 9 (bit_and value 0x0f)) in
    let high = test f flag_c || (not (test f flag_n) && ltb 0x99 value) in
    (or_if high 0x60 (or_if low 0x06 0), if high then flag_c else 0)

unfoldable pub daa_result : ℕ → ℕ → ℕ
daa_result f value =
    let adjust = (daa_adjust f value).0 in
    if test f flag_n then u8 (value + 256 - adjust) else u8 (value + adjust)

unfoldable pub daa_flags : ℕ → ℕ → ℕ
daa_flags f value =
    let (adjust, carry) = daa_adjust f value in
    or_if (test adjust 0x06) flag_h
      (u8 (bit_or (bit_or (bit_and f flag_n) (flags_szp53 (daa_result f value))) carry))

-- The mask of `BitTest` is `1u << (bit & 7)`.
unfoldable pub bit_test_flags : ℕ → ℕ → ℕ → ℕ
bit_test_flags f value bit =
    let mask = u8 (1 <<< bit_and bit 7) in
    or_if (bit == 7 && test value mask) flag_s (
      or_if (bit_and value mask == 0) 0x44
        (u8 (bit_or (bit_or (bit_and f flag_c) flag_h) (bit_and value 0x28))))

module _ {U : Type 0} where
  unfoldable pub rotate_cb : ℕ → ℕ → OnState U ℕ
  rotate_cb value kind s =
      let (carry_out, result) = rotate_cases (carry_of s.f) value kind in
      (result, record s { f = or_if (not (carry_out == 0)) flag_c (flags_szp53 result) })

  unfoldable pub daa : ℕ → OnState U ℕ
  daa value s = (daa_result s.f value, record s { f = daa_flags s.f value })

  unfoldable pub bit_test : ℕ → ℕ → StateZ80 U → StateZ80 U
  bit_test value bit s = record s { f = bit_test_flags s.f value bit }
