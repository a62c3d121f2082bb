-- ===== src/Cpu/Flags.antt =====
-- src/z80_exec.c, lines 6-13 and 120-142: the flag masks, the parity loop, and the flags that
-- depend on a result alone.
use z80_trace.Common.{ℕ, zero, suc, ◌+◌, Bool, bit_and, bit_or, ◌>>>◌, ◌==◌, if◌then◌else◌}

abbrev pub flag_s : ℕ
flag_s = 0x80

abbrev pub flag_z : ℕ
flag_z = 0x40

abbrev pub flag_5 : ℕ
flag_5 = 0x20

abbrev pub flag_h : ℕ
flag_h = 0x10

abbrev pub flag_3 : ℕ
flag_3 = 0x08

abbrev pub flag_pv : ℕ
flag_pv = 0x04

abbrev pub flag_n : ℕ
flag_n = 0x02

abbrev pub flag_c : ℕ
flag_c = 0x01

-- `if (c) flags |= mask;`
unfoldable pub or_if : Bool → ℕ → ℕ → ℕ
or_if c mask flags = if c then bit_or flags mask else flags

-- The loop of `Parity` at index `i`, with the rounds that are left.
unfoldable pub count_ones : ℕ → ℕ → ℕ → ℕ → ℕ
count_ones zero i ones value = ones
count_ones (suc left) i ones value = count_ones left (i + 1) (ones + bit_and (value >>> i) 1) value

unfoldable pub parity : ℕ → Bool
parity value = bit_and (count_ones 8 0 0 value) 1 == 0

unfoldable pub flags_sz53 : ℕ → ℕ
flags_sz53 value = or_if (value == 0) flag_z (bit_and value 0xa8)

unfoldable pub flags_szp53 : ℕ → ℕ
flags_szp53 value = or_if (parity value) flag_pv (flags_sz53 value)
