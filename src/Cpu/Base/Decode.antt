-- ===== src/Cpu/Base/Decode.antt =====
-- src/z80_exec.c, lines 1076-1516, the labels: one constructor of `BaseCase` stands for each case
-- of the two switches of `EmulateZ80Op` and for each group that is tested between them.
use z80_trace.Common.{ℕ, Bool, not, ◌&&◌, ◌||◌, List, [], ◌∷◌, bit_and, ◌==◌}
use z80_trace.Common.{if◌then◌else◌}
use z80_trace.Cpu.Switch.{switch_on}

pub data BaseCase : Type 0 where
  nop ld_rp_nn ld_bc_a inc_rp inc_r dec_r ld_r_n rlca ex_af add_hl_rp ld_a_bc dec_rp rrca : BaseCase
  djnz ld_de_a rla jr ld_a_de rra jr_cc ld_nn_hl adjust ld_hl_nn cpl ld_nn_a : BaseCase
  inc_hl_mem dec_hl_mem ld_hl_mem_n scf ld_a_nn ccf stop exx in_a_n out_n_a ex_sp_hl : BaseCase
  jp_hl ex_de_hl di ld_sp_hl ei : BaseCase
  ld_r_r ld_n_group inc_dec_group alu_r : BaseCase
  ret_cc pop jp_cc jp_nn call_cc push add_n rst ret call_nn adc_n sub_n sbc_n and_n xor_n : BaseCase
  or_n cp_n no_case : BaseCase

-- The last switch. Its default is the report of an unimplemented opcode.
abbrev last_cases : List (List ℕ × BaseCase)
last_cases =
    (0xc0 ∷ 0xc8 ∷ 0xd0 ∷ 0xd8 ∷ 0xe0 ∷ 0xe8 ∷ 0xf0 ∷ 0xf8 ∷ [], ret_cc)
    ∷ (0xc1 ∷ 0xd1 ∷ 0xe1 ∷ 0xf1 ∷ [], pop)
    ∷ (0xc2 ∷ 0xca ∷ 0xd2 ∷ 0xda ∷ 0xe2 ∷ 0xea ∷ 0xf2 ∷ 0xfa ∷ [], jp_cc)
    ∷ (0xc3 ∷ [], jp_nn)
    ∷ (0xc4 ∷ 0xcc ∷ 0xd4 ∷ 0xdc ∷ 0xe4 ∷ 0xec ∷ 0xf4 ∷ 0xfc ∷ [], call_cc)
    ∷ (0xc5 ∷ 0xd5 ∷ 0xe5 ∷ 0xf5 ∷ [], push)
    ∷ (0xc6 ∷ [], add_n)
    ∷ (0xc7 ∷ 0xcf ∷ 0xd7 ∷ 0xdf ∷ 0xe7 ∷ 0xef ∷ 0xf7 ∷ 0xff ∷ [], rst)
    ∷ (0xc9 ∷ [], ret)
    ∷ (0xcd ∷ [], call_nn)
    ∷ (0xce ∷ [], adc_n)
    ∷ (0xd6 ∷ [], sub_n)
    ∷ (0xde ∷ [], sbc_n)
    ∷ (0xe6 ∷ [], and_n)
    ∷ (0xee ∷ [], xor_n)
    ∷ (0xf6 ∷ [], or_n)
    ∷ (0xfe ∷ [], cp_n)
    ∷ []

-- The tests between the switches.
unfoldable pub is_alu_group : ℕ → Bool
is_alu_group op =
    let group = bit_and op 0xf8 in
    group == 0x80
    || group == 0x88
    || group == 0x90
    || group == 0x98
    || group == 0xa0
    || group == 0xa8
    || group == 0xb0
    || group == 0xb8

unfoldable pub decode_rest : ℕ → BaseCase
decode_rest op =
    if bit_and op 0xc0 == 0x40 && not (op == 0x76)
    then ld_r_r
    else (if bit_and op 0xc7 == 0x06
        then ld_n_group
        else (if bit_and op 0xc7 == 0x04 || bit_and op 0xc7 == 0x05
            then inc_dec_group
            else (if is_alu_group op then alu_r else switch_on op last_cases no_case)))

-- The first switch. The case of 0x34, 0x35 and 0x36 is three constructors: it tests the opcode
-- again.
abbrev first_cases : List (List ℕ × BaseCase)
first_cases =
    (0x00 ∷ [], nop)
    ∷ (0x01 ∷ 0x11 ∷ 0x21 ∷ 0x31 ∷ [], ld_rp_nn)
    ∷ (0x02 ∷ [], ld_bc_a)
    ∷ (0x03 ∷ 0x13 ∷ 0x23 ∷ 0x33 ∷ [], inc_rp)
    ∷ (0x04 ∷ 0x0c ∷ 0x14 ∷ 0x1c ∷ 0x24 ∷ 0x2c ∷ 0x3c ∷ [], inc_r)
    ∷ (0x05 ∷ 0x0d ∷ 0x15 ∷ 0x1d ∷ 0x25 ∷ 0x2d ∷ 0x3d ∷ [], dec_r)
    ∷ (0x06 ∷ 0x0e ∷ 0x16 ∷ 0x1e ∷ 0x26 ∷ 0x2e ∷ 0x3e ∷ [], ld_r_n)
    ∷ (0x07 ∷ [], rlca)
    ∷ (0x08 ∷ [], ex_af)
    ∷ (0x09 ∷ 0x19 ∷ 0x29 ∷ 0x39 ∷ [], add_hl_rp)
    ∷ (0x0a ∷ [], ld_a_bc)
    ∷ (0x0b ∷ 0x1b ∷ 0x2b ∷ 0x3b ∷ [], dec_rp)
    ∷ (0x0f ∷ [], rrca)
    ∷ (0x10 ∷ [], djnz)
    ∷ (0x12 ∷ [], ld_de_a)
    ∷ (0x17 ∷ [], rla)
    ∷ (0x18 ∷ [], jr)
    ∷ (0x1a ∷ [], ld_a_de)
    ∷ (0x1f ∷ [], rra)
    ∷ (0x20 ∷ 0x28 ∷ 0x30 ∷ 0x38 ∷ [], jr_cc)
    ∷ (0x22 ∷ [], ld_nn_hl)
    ∷ (0x27 ∷ [], adjust)
    ∷ (0x2a ∷ [], ld_hl_nn)
    ∷ (0x2f ∷ [], cpl)
    ∷ (0x32 ∷ [], ld_nn_a)
    ∷ (0x34 ∷ [], inc_hl_mem)
    ∷ (0x35 ∷ [], dec_hl_mem)
    ∷ (0x36 ∷ [], ld_hl_mem_n)
    ∷ (0x37 ∷ [], scf)
    ∷ (0x3a ∷ [], ld_a_nn)
    ∷ (0x3f ∷ [], ccf)
    ∷ (0x76 ∷ [], stop)
    ∷ (0xd9 ∷ [], exx)
    ∷ (0xdb ∷ [], in_a_n)
    ∷ (0xd3 ∷ [], out_n_a)
    ∷ (0xe3 ∷ [], ex_sp_hl)
    ∷ (0xe9 ∷ [], jp_hl)
    ∷ (0xeb ∷ [], ex_de_hl)
    ∷ (0xf3 ∷ [], di)
    ∷ (0xf9 ∷ [], ld_sp_hl)
    ∷ (0xfb ∷ [], ei)
    ∷ []

unfoldable pub decode : ℕ → BaseCase
decode op = switch_on op first_cases (decode_rest op)
