-- ===== src/Cpu/Advance/Base.antt =====
-- The instructions of the unprefixed switch, by the bytes that stand behind their opcode.
use z80_trace.Common.{ℕ, ◌+◌, Bool, true, false, ◌&&◌, ◌||◌, ◌==◌, bit_and, refl, ◌≡◌, arith}
use z80_trace.Common.{if◌then◌else◌}
use z80_trace.Cpu.State.{StateZ80}
use z80_trace.Cpu.Registers.{IndexMode, is_indexed, exchange_af, exchange_shadow, set_f, set_hl}
use z80_trace.Cpu.Registers.{set_de, set_af_alt, set_af, set_hl_alt, set_de_alt, set_bc_alt, set_bc}
use z80_trace.Cpu.Base.{registers_only, set_iffs, enable_interrupts, halt_cpu}
use z80_trace.Cpu.Base.{report_unimplemented, execute_base_case, execute_base}
use z80_trace.Cpu.Base.Decode.{BaseCase, nop, ld_rp_nn, ld_bc_a, inc_rp, inc_r, dec_r, ld_r_n, rlca}
use z80_trace.Cpu.Base.Decode.{ex_af, add_hl_rp, ld_a_bc, dec_rp, rrca, djnz, ld_de_a, rla, jr}
use z80_trace.Cpu.Base.Decode.{ld_a_de, rra, jr_cc, ld_nn_hl, adjust, ld_hl_nn, cpl, ld_nn_a}
use z80_trace.Cpu.Base.Decode.{inc_hl_mem, dec_hl_mem, ld_hl_mem_n, scf, ld_a_nn, ccf, stop, exx}
use z80_trace.Cpu.Base.Decode.{in_a_n, out_n_a, ex_sp_hl, jp_hl, ex_de_hl, di, ld_sp_hl, ei, ld_r_r}
use z80_trace.Cpu.Base.Decode.{ld_n_group, inc_dec_group, alu_r, ret_cc, pop, jp_cc, jp_nn, call_cc}
use z80_trace.Cpu.Base.Decode.{push, add_n, rst, ret, call_nn, adc_n, sub_n, sbc_n, and_n, xor_n}
use z80_trace.Cpu.Base.Decode.{or_n, cp_n, no_case, decode}
use z80_trace.Cpu.Base.Load.{reg_field, exchange_de_hl, load_sp}
use z80_trace.Cpu.Base.Arith.{rotate_a_left_circular, rotate_a_right_circular, rotate_a_left}
use z80_trace.Cpu.Base.Arith.{rotate_a_right, complement_a, set_carry, invert_carry}
use z80_trace.Cpu.Interrupt.{set_error_text}
use z80_trace.Cpu.Advance.Rules.{Advances, Advances-by, Advances-pure, Advances-modify, Advances-if}
use z80_trace.Cpu.Advance.Rules.{◌⊳⊳◌}
use z80_trace.Cpu.Advance.Bus.{add_cycles-Advances}
use z80_trace.Cpu.Advance.Load.{disp_bytes, ld_pair_imm-Advances, ld_reg_imm-Advances}
use z80_trace.Cpu.Advance.Load.{store_a_at-Advances, load_a_at-Advances, store_index_at_nn-Advances}
use z80_trace.Cpu.Advance.Load.{load_index_at_nn-Advances, store_a_at_nn-Advances}
use z80_trace.Cpu.Advance.Load.{load_a_at_nn-Advances, ld_memory_imm-Advances, input_a-Advances}
use z80_trace.Cpu.Advance.Load.{output_a-Advances, exchange_stack_top-Advances}
use z80_trace.Cpu.Advance.Load.{ld_reg_reg-Advances, pop_pair-Advances, push_pair-Advances}
use z80_trace.Cpu.Advance.Arith.{inc_pair-Advances, dec_pair-Advances, inc_reg-Advances}
use z80_trace.Cpu.Advance.Arith.{dec_reg-Advances, inc_memory-Advances, dec_memory-Advances}
use z80_trace.Cpu.Advance.Arith.{inc_dec-Advances, add_index-Advances, adjust_a-Advances}
use z80_trace.Cpu.Advance.Arith.{add_to_a-Advances, sub_from_a-Advances, and_a-Advances}
use z80_trace.Cpu.Advance.Arith.{xor_a-Advances, or_a-Advances, compare_a-Advances}
use z80_trace.Cpu.Advance.Arith.{alu_reg-Advances, alu_imm-Advances}

-- The cases after which the next instruction follows: no jump, call or return.
unfoldable pub goes_on : BaseCase → Bool
goes_on djnz = false
goes_on jr = false
goes_on jr_cc = false
goes_on jp_hl = false
goes_on ret_cc = false
goes_on jp_cc = false
goes_on jp_nn = false
goes_on call_cc = false
goes_on rst = false
goes_on ret = false
goes_on call_nn = false
goes_on _ = true

unfoldable pub operands : BaseCase → ℕ → IndexMode → ℕ
operands ld_rp_nn op index = 2
operands ld_r_n op index = 1
operands ld_nn_hl op index = 2
operands ld_hl_nn op index = 2
operands ld_nn_a op index = 2
operands ld_a_nn op index = 2
operands inc_hl_mem op index = disp_bytes (is_indexed index)
operands dec_hl_mem op index = disp_bytes (is_indexed index)
operands ld_hl_mem_n op index = disp_bytes (is_indexed index) + 1
operands in_a_n op index = 1
operands out_n_a op index = 1
operands ld_r_r op index = disp_bytes (is_indexed index && (reg_field op == 6 || bit_and op 7 == 6))
operands ld_n_group op index = if reg_field op == 6 then disp_bytes (is_indexed index) + 1 else 1
operands inc_dec_group op index = if reg_field op == 6 then disp_bytes (is_indexed index) else 0
operands alu_r op index = disp_bytes (is_indexed index && bit_and op 7 == 6)
operands add_n op index = 1
operands adc_n op index = 1
operands sub_n op index = 1
operands sbc_n op index = 1
operands and_n op index = 1
operands xor_n op index = 1
operands or_n op index = 1
operands cp_n op index = 1
operands _ op index = 0

module _ {U : Type 0} where
  registers_only-Advances :
      (change : StateZ80 U → StateZ80 U) (cycles : ℕ)
      → ((s : StateZ80 U) → (change s).pc ≡ s.pc)
      → Advances 0 (registers_only change cycles)
  unfolding registers_only
  registers_only-Advances change cycles same =
      Advances-modify change same ⊳⊳ add_cycles-Advances cycles

  enable_interrupts-Advances : Advances {U = U} 0 enable_interrupts
  unfolding enable_interrupts set_iffs
  enable_interrupts-Advances =
      Advances-modify _ (λ s. refl) ⊳⊳ add_cycles-Advances 4 ⊳⊳ Advances-modify _ (λ s. refl)

  halt_cpu-Advances : Advances {U = U} 0 halt_cpu
  unfolding halt_cpu
  halt_cpu-Advances = Advances-modify _ (λ s. refl) ⊳⊳ add_cycles-Advances 4

  pub execute_base_case-Advances :
      (c : BaseCase) (op : ℕ) (index : IndexMode)
      → goes_on c ≡ true
      → Advances {U = U} (operands c op index) (execute_base_case c op index)
  unfolding goes_on operands execute_base_case exchange_af exchange_shadow exchange_de_hl load_sp
      rotate_a_left_circular rotate_a_right_circular rotate_a_left rotate_a_right complement_a
      set_carry invert_carry set_f set_hl set_de set_iffs report_unimplemented set_error_text
      set_af_alt set_af set_hl_alt set_de_alt set_bc_alt set_bc
  execute_base_case-Advances nop op index h = add_cycles-Advances 4
  execute_base_case-Advances ld_rp_nn op index h = ld_pair_imm-Advances op index
  execute_base_case-Advances ld_bc_a op index h = store_a_at-Advances _
  execute_base_case-Advances inc_rp op index h = inc_pair-Advances op index
  execute_base_case-Advances inc_r op index h = inc_reg-Advances op index
  execute_base_case-Advances dec_r op index h = dec_reg-Advances op index
  execute_base_case-Advances ld_r_n op index h = ld_reg_imm-Advances op index
  execute_base_case-Advances rlca op index h =
      registers_only-Advances rotate_a_left_circular 4 (λ s. refl)
  execute_base_case-Advances ex_af op index h = registers_only-Advances exchange_af 4 (λ s. refl)
  execute_base_case-Advances add_hl_rp op index h = add_index-Advances op index
  execute_base_case-Advances ld_a_bc op index h = load_a_at-Advances _
  execute_base_case-Advances dec_rp op index h = dec_pair-Advances op index
  execute_base_case-Advances rrca op index h =
      registers_only-Advances rotate_a_right_circular 4 (λ s. refl)
  execute_base_case-Advances djnz op index h = absurd (ground arith)
  execute_base_case-Advances ld_de_a op index h = store_a_at-Advances _
  execute_base_case-Advances rla op index h = registers_only-Advances rotate_a_left 4 (λ s. refl)
  execute_base_case-Advances jr op index h = absurd (ground arith)
  execute_base_case-Advances ld_a_de op index h = load_a_at-Advances _
  execute_base_case-Advances rra op index h = registers_only-Advances rotate_a_right 4 (λ s. refl)
  execute_base_case-Advances jr_cc op index h = absurd (ground arith)
  execute_base_case-Advances ld_nn_hl op index h = store_index_at_nn-Advances index
  execute_base_case-Advances adjust op index h = adjust_a-Advances
  execute_base_case-Advances ld_hl_nn op index h = load_index_at_nn-Advances index
  execute_base_case-Advances cpl op index h = registers_only-Advances complement_a 4 (λ s. refl)
  execute_base_case-Advances ld_nn_a op index h = store_a_at_nn-Advances
  execute_base_case-Advances inc_hl_mem op index h = inc_memory-Advances index
  execute_base_case-Advances dec_hl_mem op index h = dec_memory-Advances index
  execute_base_case-Advances ld_hl_mem_n op index h = ld_memory_imm-Advances index
  execute_base_case-Advances scf op index h = registers_only-Advances set_carry 4 (λ s. refl)
  execute_base_case-Advances ld_a_nn op index h = load_a_at_nn-Advances
  execute_base_case-Advances ccf op index h = registers_only-Advances invert_carry 4 (λ s. refl)
  execute_base_case-Advances stop op index h = halt_cpu-Advances
  execute_base_case-Advances exx op index h = registers_only-Advances exchange_shadow 4 (λ s. refl)
  execute_base_case-Advances in_a_n op index h = input_a-Advances
  execute_base_case-Advances out_n_a op index h = output_a-Advances
  execute_base_case-Advances ex_sp_hl op index h = exchange_stack_top-Advances index
  execute_base_case-Advances jp_hl op index h = absurd (ground arith)
  execute_base_case-Advances ex_de_hl op index h =
      registers_only-Advances exchange_de_hl 4 (λ s. refl)
  execute_base_case-Advances di op index h = registers_only-Advances (set_iffs 0) 4 (λ s. refl)
  execute_base_case-Advances ld_sp_hl op index h =
      registers_only-Advances (load_sp index) _ (λ s. refl)
  execute_base_case-Advances ei op index h = enable_interrupts-Advances
  execute_base_case-Advances ld_r_r op index h = ld_reg_reg-Advances op index
  execute_base_case-Advances ld_n_group op index h =
      Advances-if _ (ld_memory_imm-Advances index) (ld_reg_imm-Advances op index)
  execute_base_case-Advances inc_dec_group op index h = inc_dec-Advances op index
  execute_base_case-Advances alu_r op index h = alu_reg-Advances op index
  execute_base_case-Advances ret_cc op index h = absurd (ground arith)
  execute_base_case-Advances pop op index h = pop_pair-Advances op index
  execute_base_case-Advances jp_cc op index h = absurd (ground arith)
  execute_base_case-Advances jp_nn op index h = absurd (ground arith)
  execute_base_case-Advances call_cc op index h = absurd (ground arith)
  execute_base_case-Advances push op index h = push_pair-Advances op index
  execute_base_case-Advances add_n op index h = alu_imm-Advances _ (add_to_a-Advances false)
  execute_base_case-Advances rst op index h = absurd (ground arith)
  execute_base_case-Advances ret op index h = absurd (ground arith)
  execute_base_case-Advances call_nn op index h = absurd (ground arith)
  execute_base_case-Advances adc_n op index h = alu_imm-Advances _ (add_to_a-Advances true)
  execute_base_case-Advances sub_n op index h = alu_imm-Advances _ (sub_from_a-Advances false)
  execute_base_case-Advances sbc_n op index h = alu_imm-Advances _ (sub_from_a-Advances true)
  execute_base_case-Advances and_n op index h = alu_imm-Advances _ and_a-Advances
  execute_base_case-Advances xor_n op index h = alu_imm-Advances _ xor_a-Advances
  execute_base_case-Advances or_n op index h = alu_imm-Advances _ or_a-Advances
  execute_base_case-Advances cp_n op index h = alu_imm-Advances _ compare_a-Advances
  execute_base_case-Advances no_case op index h = Advances-modify _ (λ s. refl)

  pub execute_base-Advances :
      (op : ℕ) (index : IndexMode)
      → goes_on (decode op) ≡ true
      → Advances {U = U} (operands (decode op) op index) (execute_base op index)
  unfolding execute_base
  execute_base-Advances op index h =
      Advances-by (omega arith)
        (execute_base_case-Advances (decode op) op index h ⊳⊳ Advances-pure _)
