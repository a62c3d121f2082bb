-- ===== src/Cpu/Base.antt =====
-- src/z80_exec.c, lines 1076-1519: the unprefixed opcodes, also behind DD and FD.
pub mod Decode
pub mod Load
pub mod Arith
pub mod Jump
use z80_trace.Common.{ℕ, ◌+◌, ◌-◌, Bool, true, false, u16, ◌==◌, if◌then◌else◌}
use z80_trace.Cpu.State.{StateZ80, StepResult, ok, halt, unimplemented, unimplemented_opcode}
use z80_trace.Cpu.Monad.{Cpu, ◌>>=◌, ◌>>◌, pure, gets, modify}
use z80_trace.Cpu.Registers.{IndexMode, get_bc, get_de, get_index_value, exchange_af}
use z80_trace.Cpu.Registers.{exchange_shadow, set_pc}
use z80_trace.Cpu.Bus.{add_cycles}
use z80_trace.Cpu.Interrupt.{set_error_text}
use Decode.{BaseCase, nop, ld_rp_nn, ld_bc_a, inc_rp, inc_r, dec_r, ld_r_n, rlca, ex_af, add_hl_rp}
use Decode.{ld_a_bc, dec_rp, rrca, djnz, ld_de_a, rla, jr, ld_a_de, rra, jr_cc, ld_nn_hl, adjust}
use Decode.{ld_hl_nn, cpl, ld_nn_a, inc_hl_mem, dec_hl_mem, ld_hl_mem_n, scf, ld_a_nn, ccf, stop}
use Decode.{exx, in_a_n, out_n_a, ex_sp_hl, jp_hl, ex_de_hl, di, ld_sp_hl, ei, ld_r_r, ld_n_group}
use Decode.{
  inc_dec_group, alu_r, ret_cc, pop, jp_cc, jp_nn, call_cc, push, add_n, rst, ret, call_nn,
}
use Decode.{adc_n, sub_n, sbc_n, and_n, xor_n, or_n, cp_n, no_case, decode}
use Load.{
  reg_field, index_cycles, ld_pair_imm, ld_reg_imm, store_a_at, load_a_at, store_index_at_nn,
}
use Load.{load_index_at_nn, store_a_at_nn, load_a_at_nn, ld_memory_imm, input_a, output_a}
use Load.{exchange_stack_top, exchange_de_hl, load_sp, ld_reg_reg, pop_pair, push_pair}
use Arith.{inc_pair, dec_pair, inc_reg, dec_reg, inc_memory, dec_memory, inc_dec, add_index}
use Arith.{rotate_a_left_circular, rotate_a_right_circular, rotate_a_left, rotate_a_right}
use Arith.{
  complement_a, set_carry, invert_carry, adjust_a, add_to_a, sub_from_a, and_a, xor_a, or_a,
}
use Arith.{compare_a, alu_reg, alu_imm}
use Jump.{jr_always, jr_if, dec_jump, jump_always, jump_if, call_always, call_if, restart}
use Jump.{return_always, return_if}

module _ {U : Type 0} where
  -- An instruction that changes registers alone.
  unfoldable pub registers_only : (StateZ80 U → StateZ80 U) → ℕ → Cpu U (Unit {0})
  registers_only change cycles = do modify change; add_cycles cycles

  unfoldable pub set_iffs : ℕ → StateZ80 U → StateZ80 U
  set_iffs value s = record s { iff1 = value; iff2 = value }

  -- `EI`; the flag that suppresses the next interrupt is set at the label `done`.
  unfoldable pub enable_interrupts : Cpu U (Unit {0})
  enable_interrupts = do
    modify (set_iffs 1)
    add_cycles 4
    modify (λ s. record s { ei_pending = 1 })

  -- `HALT`: `STEP_HALT(4)`.
  unfoldable pub halt_cpu : Cpu U (Unit {0})
  halt_cpu = do modify (λ s. record s { halted = 1 }); add_cycles 4

  -- The report of an opcode that no case takes.
  unfoldable pub report_unimplemented : ℕ → StateZ80 U → StateZ80 U
  report_unimplemented op s = set_error_text (unimplemented_opcode op (u16 (s.pc + 65536 - 1))) s

  unfoldable pub execute_base_case : BaseCase → ℕ → IndexMode → Cpu U (Unit {0})
  execute_base_case nop op index = add_cycles 4
  execute_base_case ld_rp_nn op index = ld_pair_imm op index
  execute_base_case ld_bc_a op index = store_a_at get_bc
  execute_base_case inc_rp op index = inc_pair op index
  execute_base_case inc_r op index = inc_reg op index
  execute_base_case dec_r op index = dec_reg op index
  execute_base_case ld_r_n op index = ld_reg_imm op index
  execute_base_case rlca op index = registers_only rotate_a_left_circular 4
  execute_base_case ex_af op index = registers_only exchange_af 4
  execute_base_case add_hl_rp op index = add_index op index
  execute_base_case ld_a_bc op index = load_a_at get_bc
  execute_base_case dec_rp op index = dec_pair op index
  execute_base_case rrca op index = registers_only rotate_a_right_circular 4
  execute_base_case djnz op index = dec_jump
  execute_base_case ld_de_a op index = store_a_at get_de
  execute_base_case rla op index = registers_only rotate_a_left 4
  execute_base_case jr op index = jr_always
  execute_base_case ld_a_de op index = load_a_at get_de
  execute_base_case rra op index = registers_only rotate_a_right 4
  execute_base_case jr_cc op index = jr_if op
  execute_base_case ld_nn_hl op index = store_index_at_nn index
  execute_base_case adjust op index = adjust_a
  execute_base_case ld_hl_nn op index = load_index_at_nn index
  execute_base_case cpl op index = registers_only complement_a 4
  execute_base_case ld_nn_a op index = store_a_at_nn
  execute_base_case inc_hl_mem op index = inc_memory index
  execute_base_case dec_hl_mem op index = dec_memory index
  execute_base_case ld_hl_mem_n op index = ld_memory_imm index
  execute_base_case scf op index = registers_only set_carry 4
  execute_base_case ld_a_nn op index = load_a_at_nn
  execute_base_case ccf op index = registers_only invert_carry 4
  execute_base_case stop op index = halt_cpu
  execute_base_case exx op index = registers_only exchange_shadow 4
  execute_base_case in_a_n op index = input_a
  execute_base_case out_n_a op index = output_a
  execute_base_case ex_sp_hl op index = exchange_stack_top index
  execute_base_case jp_hl op index = registers_only (λ s. set_pc (get_index_value index s) s) 4
  execute_base_case ex_de_hl op index = registers_only exchange_de_hl 4
  execute_base_case di op index = registers_only (set_iffs 0) 4
  execute_base_case ld_sp_hl op index = registers_only (load_sp index) (index_cycles index 10 6)
  execute_base_case ei op index = enable_interrupts
  execute_base_case ld_r_r op index = ld_reg_reg op index
  execute_base_case ld_n_group op index =
      if reg_field op == 6 then ld_memory_imm index else ld_reg_imm op index
  execute_base_case inc_dec_group op index = inc_dec op index
  execute_base_case alu_r op index = alu_reg op index
  execute_base_case ret_cc op index = return_if op
  execute_base_case pop op index = pop_pair op index
  execute_base_case jp_cc op index = jump_if op
  execute_base_case jp_nn op index = jump_always
  execute_base_case call_cc op index = call_if op
  execute_base_case push op index = push_pair op index
  execute_base_case add_n op index = alu_imm (add_to_a false)
  execute_base_case rst op index = restart op
  execute_base_case ret op index = return_always
  execute_base_case call_nn op index = call_always
  execute_base_case adc_n op index = alu_imm (add_to_a true)
  execute_base_case sub_n op index = alu_imm (sub_from_a false)
  execute_base_case sbc_n op index = alu_imm (sub_from_a true)
  execute_base_case and_n op index = alu_imm and_a
  execute_base_case xor_n op index = alu_imm xor_a
  execute_base_case or_n op index = alu_imm or_a
  execute_base_case cp_n op index = alu_imm compare_a
  execute_base_case no_case op index = modify (report_unimplemented op)

-- What the case returns.
unfoldable pub case_result : BaseCase → StepResult
case_result stop = halt
case_result no_case = unimplemented
case_result _ = ok

unfoldable pub execute_base : {U : Type 0} → ℕ → IndexMode → Cpu U StepResult
execute_base op index = do execute_base_case (decode op) op index; pure (case_result (decode op))
