-- ===== src/Cpu/Ed.antt =====
-- src/z80_exec.c, lines 779-1013: the instructions behind the prefix ED. One constructor of `EdCase`
-- stands for each case of the switch, and `ed_cases` has its labels.
pub mod Block
use z80_trace.Common.{ℕ, ◌+◌, ◌-◌, Bool, not, List, [], ◌∷◌, bit_and, bit_or, u8, u16, test}
use z80_trace.Common.{◌<<<◌, ◌>>>◌, ◌==◌, if◌then◌else◌}
use z80_trace.Cpu.State.{StateZ80, StepResult, ok}
use z80_trace.Cpu.Monad.{Cpu, ◌>>=◌, ◌>>◌, pure, gets, modify, lift}
use z80_trace.Cpu.Registers.{
  index_none, get_bc, get_hl, set_hl, get_rp, set_rp, set_a, set_f, set_pc,
}
use z80_trace.Cpu.Registers.{get_reg8_simple, set_reg8_simple}
use z80_trace.Cpu.Flags.{flags_sz53, flags_szp53, flag_c, flag_pv}
use z80_trace.Cpu.Alu.{carry_of, sub8, add16_carry, sub16_carry}
use z80_trace.Cpu.Bus.{read_port, write_port, read_memory, write_memory, read_immediate16}
use z80_trace.Cpu.Bus.{read_memory16, write_memory16, pop16, add_cycles}
use z80_trace.Cpu.Switch.{switch_on}
use Block.{block_load, block_compare, block_input, block_output}

pub data EdCase : Type 0 where
  in_r_c in_c out_c_r out_c_0 sbc_hl adc_hl ld_nn_rp ld_rp_nn neg retn reti im_0 im_1 im_2 : EdCase
  ld_i_a ld_r_a ld_a_i ld_a_r rrd rld load compare input output other : EdCase

abbrev ed_cases : List (List ℕ × EdCase)
ed_cases =
    (0x40 ∷ 0x48 ∷ 0x50 ∷ 0x58 ∷ 0x60 ∷ 0x68 ∷ 0x78 ∷ [], in_r_c)
    ∷ (0x70 ∷ [], in_c)
    ∷ (0x41 ∷ 0x49 ∷ 0x51 ∷ 0x59 ∷ 0x61 ∷ 0x69 ∷ 0x79 ∷ [], out_c_r)
    ∷ (0x71 ∷ [], out_c_0)
    ∷ (0x42 ∷ 0x52 ∷ 0x62 ∷ 0x72 ∷ [], sbc_hl)
    ∷ (0x4a ∷ 0x5a ∷ 0x6a ∷ 0x7a ∷ [], adc_hl)
    ∷ (0x43 ∷ 0x53 ∷ 0x63 ∷ 0x73 ∷ [], ld_nn_rp)
    ∷ (0x4b ∷ 0x5b ∷ 0x6b ∷ 0x7b ∷ [], ld_rp_nn)
    ∷ (0x44 ∷ 0x4c ∷ 0x54 ∷ 0x5c ∷ 0x64 ∷ 0x6c ∷ 0x74 ∷ 0x7c ∷ [], neg)
    ∷ (0x45 ∷ 0x55 ∷ 0x5d ∷ 0x65 ∷ 0x6d ∷ 0x75 ∷ [], retn)
    ∷ (0x4d ∷ [], reti)
    ∷ (0x46 ∷ 0x4e ∷ 0x66 ∷ 0x6e ∷ [], im_0)
    ∷ (0x56 ∷ 0x76 ∷ [], im_1)
    ∷ (0x5e ∷ 0x7e ∷ [], im_2)
    ∷ (0x47 ∷ [], ld_i_a)
    ∷ (0x4f ∷ [], ld_r_a)
    ∷ (0x57 ∷ [], ld_a_i)
    ∷ (0x5f ∷ [], ld_a_r)
    ∷ (0x67 ∷ [], rrd)
    ∷ (0x6f ∷ [], rld)
    ∷ (0xa0 ∷ 0xa8 ∷ 0xb0 ∷ 0xb8 ∷ [], load)
    ∷ (0xa1 ∷ 0xa9 ∷ 0xb1 ∷ 0xb9 ∷ [], compare)
    ∷ (0xa2 ∷ 0xaa ∷ 0xb2 ∷ 0xba ∷ [], input)
    ∷ (0xa3 ∷ 0xab ∷ 0xb3 ∷ 0xbb ∷ [], output)
    ∷ []

unfoldable pub decode_ed : ℕ → EdCase
decode_ed op = switch_on op ed_cases other

-- The register and the pair that an opcode names.
abbrev pub reg_of : ℕ → ℕ
reg_of op = bit_and (op >>> 3) 7

abbrev pub pair_of : ℕ → ℕ
pair_of op = bit_and (op >>> 4) 3

module _ {U : Type 0} where
  -- `(state->f & FLAG_C) | FlagsSZP53(value)`.
  unfoldable pub set_input_flags : ℕ → StateZ80 U → StateZ80 U
  set_input_flags value s = set_f (u8 (bit_or (bit_and s.f flag_c) (flags_szp53 value))) s

  -- The flags of `LD A,I` and `LD A,R`.
  unfoldable pub set_interrupt_flags : StateZ80 U → StateZ80 U
  set_interrupt_flags s =
      set_f
        (u8 (
          bit_or (bit_or (bit_and s.f flag_c) (flags_sz53 s.a))
            (if not (s.iff2 == 0) then flag_pv else 0)))
        s

  unfoldable pub set_im : ℕ → StateZ80 U → StateZ80 U
  set_im mode s = record s { im = mode }

  -- The carry flag, as the argument of the 16-bit operations.
  abbrev carry_flag : StateZ80 U → ℕ
  carry_flag s = carry_of s.f

  unfoldable pub execute_ed_case : EdCase → ℕ → Cpu U (Unit {0})
  execute_ed_case in_r_c op = do
    addr ← gets get_bc
    value ← read_port addr
    modify (set_reg8_simple (reg_of op) index_none value)
    modify (set_input_flags value)
    add_cycles 12
  execute_ed_case in_c op = do
    addr ← gets get_bc
    value ← read_port addr
    modify (set_input_flags value)
    add_cycles 12
  execute_ed_case out_c_r op = do
    addr ← gets get_bc
    value ← gets (get_reg8_simple (reg_of op) index_none)
    write_port addr value
    add_cycles 12
  execute_ed_case out_c_0 op = do addr ← gets get_bc; write_port addr 0x00; add_cycles 12
  execute_ed_case sbc_hl op = do
    lhs ← gets get_hl
    rhs ← gets (get_rp (pair_of op) index_none)
    carry ← gets carry_flag
    value ← lift (sub16_carry lhs rhs carry)
    modify (set_hl value)
    add_cycles 15
  execute_ed_case adc_hl op = do
    lhs ← gets get_hl
    rhs ← gets (get_rp (pair_of op) index_none)
    carry ← gets carry_flag
    value ← lift (add16_carry lhs rhs carry)
    modify (set_hl value)
    add_cycles 15
  execute_ed_case ld_nn_rp op = do
    addr ← read_immediate16
    value ← gets (get_rp (pair_of op) index_none)
    write_memory16 addr value
    add_cycles 20
  execute_ed_case ld_rp_nn op = do
    addr ← read_immediate16
    value ← read_memory16 addr
    modify (set_rp (pair_of op) index_none value)
    add_cycles 20
  execute_ed_case neg op = do
    a ← gets (λ s. s.a)
    value ← lift (sub8 0 a 0 Bool.true)
    modify (set_a value)
    add_cycles 8
  execute_ed_case retn op = do
    modify (λ s. record s { iff1 = s.iff2 })
    pc ← pop16
    modify (set_pc pc)
    add_cycles 14
  execute_ed_case reti op = do pc ← pop16; modify (set_pc pc); add_cycles 14
  execute_ed_case im_0 op = do modify (set_im 0); add_cycles 8
  execute_ed_case im_1 op = do modify (set_im 1); add_cycles 8
  execute_ed_case im_2 op = do modify (set_im 2); add_cycles 8
  execute_ed_case ld_i_a op = do modify (λ s. record s { i = s.a }); add_cycles 9
  execute_ed_case ld_r_a op = do
    modify (λ s. record s { r = u8 (bit_or (bit_and s.r 0x80) (bit_and s.a 0x7f)) })
    add_cycles 9
  execute_ed_case ld_a_i op = do modify (λ s. set_a s.i s); modify set_interrupt_flags; add_cycles 9
  execute_ed_case ld_a_r op = do modify (λ s. set_a s.r s); modify set_interrupt_flags; add_cycles 9
  execute_ed_case rrd op = do
    addr ← gets get_hl
    mem ← read_memory addr
    new_mem ← gets (λ s. u8 (bit_or (mem <<< 4) (bit_and s.a 0x0f)))
    modify (λ s. set_a (u8 (bit_or (bit_and s.a 0xf0) (mem >>> 4))) s)
    write_memory addr new_mem
    modify (λ s. set_input_flags s.a s)
    add_cycles 18
  execute_ed_case rld op = do
    addr ← gets get_hl
    mem ← read_memory addr
    new_mem ← gets (λ s. u8 (bit_or (s.a <<< 4) (mem >>> 4)))
    modify (λ s. set_a (u8 (bit_or (bit_and s.a 0xf0) (bit_and mem 0x0f))) s)
    write_memory addr new_mem
    modify (λ s. set_input_flags s.a s)
    add_cycles 18
  execute_ed_case load op = block_load op
  execute_ed_case compare op = block_compare op
  execute_ed_case input op = block_input op
  execute_ed_case output op = block_output op
  execute_ed_case other op = add_cycles 8

  -- Every case returns `Z80_STEP_OK`.
  unfoldable pub execute_ed : ℕ → Cpu U StepResult
  execute_ed op = do execute_ed_case (decode_ed op) op; pure ok
