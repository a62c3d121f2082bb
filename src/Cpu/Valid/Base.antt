-- ===== src/Cpu/Valid/Base.antt =====
-- Every unprefixed opcode keeps the machine well formed.
use z80_trace.Common.{ℕ, Bool, true, false, ◌||◌, ◌==◌, ◌≡◌, arith}
use z80_trace.Cpu.Laws.Opcode.{case_result-decode}
use z80_trace.Cpu.State.{StateZ80}
use z80_trace.Cpu.Registers.{IndexMode, get_bc, get_de}
use z80_trace.Cpu.Base.{registers_only, set_iffs, enable_interrupts, halt_cpu, report_unimplemented}
use z80_trace.Cpu.Base.{execute_base_case, execute_base}
use z80_trace.Cpu.Base.Decode.{
  BaseCase, nop, ld_rp_nn, ld_bc_a, inc_rp, inc_r, dec_r, ld_r_n, rlca, ex_af, add_hl_rp, ld_a_bc,
  dec_rp, rrca, djnz, ld_de_a, rla, jr, ld_a_de, rra, jr_cc, ld_nn_hl, adjust, ld_hl_nn, cpl,
  ld_nn_a, inc_hl_mem, dec_hl_mem, ld_hl_mem_n, scf, ld_a_nn, ccf, stop, exx, in_a_n, out_n_a,
  ex_sp_hl, jp_hl, ex_de_hl, di, ld_sp_hl, ei, ld_r_r, ld_n_group, inc_dec_group, alu_r, ret_cc,
  pop, jp_cc, jp_nn, call_cc, push, add_n, rst, ret, call_nn, adc_n, sub_n, sbc_n, and_n, xor_n,
  or_n, cp_n, no_case,
}
use z80_trace.Cpu.Valid.Defs.{IsByte, IsState, IsImplemented, Gives, Any}
use z80_trace.Cpu.Valid.Rules.{Gives-pure, Gives-modify, Gives-if, ◌▷◌}
use z80_trace.Cpu.Valid.Interrupt.{set_error_text-IsState}
use z80_trace.Cpu.Valid.Bus.{add_cycles-Gives}
use z80_trace.Cpu.Valid.Arith.{
  add_index-Gives, add_to_a-Gives, adjust_a-Gives, alu_imm-Gives, alu_reg-Gives, and_a-Gives,
  compare_a-Gives, complement_a-IsState, dec_memory-Gives, dec_pair-Gives, dec_reg-Gives,
  inc_dec-Gives, inc_memory-Gives, inc_pair-Gives, inc_reg-Gives, invert_carry-IsState, or_a-Gives,
  rotate_a_left-IsState, rotate_a_left_circular-IsState, rotate_a_right-IsState,
  rotate_a_right_circular-IsState, set_carry-IsState, sub_from_a-Gives, xor_a-Gives,
}
use z80_trace.Cpu.Valid.Jump.{
  call_always-Gives, call_if-Gives, dec_jump-Gives, jr_always-Gives, jr_if-Gives, jump_always-Gives,
  jump_if-Gives, restart-Gives, return_always-Gives, return_if-Gives,
}
use z80_trace.Cpu.Valid.Registers.{
  exchange_af-IsState, exchange_shadow-IsState, get_index_value-IsWord, set_pc-IsState,
}
use z80_trace.Cpu.Valid.Load.{
  exchange_de_hl-IsState, exchange_stack_top-Gives, input_a-Gives, ld_memory_imm-Gives,
  ld_pair_imm-Gives, ld_reg_imm-Gives, ld_reg_reg-Gives, load_a_at-Gives, load_a_at_nn-Gives,
  load_index_at_nn-Gives, load_sp-IsState, output_a-Gives, pop_pair-Gives, push_pair-Gives,
  store_a_at-Gives, store_a_at_nn-Gives, store_index_at_nn-Gives,
}

differs : {b : Bool} → b ≡ false → b ≡ true → ⊥
differs h e = ground arith

module _ {U : Type 0} where
  registers_only-Gives :
      (change : StateZ80 U → StateZ80 U) (cycles : ℕ)
      → ((s : StateZ80 U) → IsState s → IsState (change s))
      → Gives Any (registers_only change cycles)
  unfolding registers_only
  registers_only-Gives change cycles h = Gives-modify h ▷ add_cycles-Gives cycles

  set_iffs-IsState :
      (value : ℕ) → IsByte value → (s : StateZ80 U) → IsState s → IsState (set_iffs value s)
  unfolding set_iffs
  set_iffs-IsState value h s v = ground arith

  set_ei_pending-IsState :
      (value : ℕ) (s : StateZ80 U) → IsState s → IsState (record s { ei_pending = value })
  set_ei_pending-IsState value s v = ground arith

  set_halted-IsState :
      (value : ℕ) (s : StateZ80 U) → IsState s → IsState (record s { halted = value })
  set_halted-IsState value s v = ground arith

  enable_interrupts-Gives : Gives {U = U} Any enable_interrupts
  unfolding enable_interrupts
  enable_interrupts-Gives =
      Gives-modify (set_iffs-IsState 1 (omega arith))
      ▷ add_cycles-Gives 4
      ▷ Gives-modify (set_ei_pending-IsState 1)

  halt_cpu-Gives : Gives {U = U} Any halt_cpu
  unfolding halt_cpu
  halt_cpu-Gives = Gives-modify (set_halted-IsState 1) ▷ add_cycles-Gives 4

  report_unimplemented-IsState :
      (op : ℕ) (s : StateZ80 U) → IsState s → IsState (report_unimplemented op s)
  unfolding report_unimplemented
  report_unimplemented-IsState op s v = set_error_text-IsState _ s v

  execute_base_case-Gives :
      (case : BaseCase) (op : ℕ) (index : IndexMode)
      → Gives {U = U} Any (execute_base_case case op index)
  unfolding execute_base_case
  execute_base_case-Gives nop op index = add_cycles-Gives 4
  execute_base_case-Gives ld_rp_nn op index = ld_pair_imm-Gives op index
  execute_base_case-Gives ld_bc_a op index = store_a_at-Gives get_bc
  execute_base_case-Gives inc_rp op index = inc_pair-Gives op index
  execute_base_case-Gives inc_r op index = inc_reg-Gives op index
  execute_base_case-Gives dec_r op index = dec_reg-Gives op index
  execute_base_case-Gives ld_r_n op index = ld_reg_imm-Gives op index
  execute_base_case-Gives rlca op index = registers_only-Gives _ 4 rotate_a_left_circular-IsState
  execute_base_case-Gives ex_af op index = registers_only-Gives _ 4 exchange_af-IsState
  execute_base_case-Gives add_hl_rp op index = add_index-Gives op index
  execute_base_case-Gives ld_a_bc op index = load_a_at-Gives get_bc
  execute_base_case-Gives dec_rp op index = dec_pair-Gives op index
  execute_base_case-Gives rrca op index = registers_only-Gives _ 4 rotate_a_right_circular-IsState
  execute_base_case-Gives djnz op index = dec_jump-Gives
  execute_base_case-Gives ld_de_a op index = store_a_at-Gives get_de
  execute_base_case-Gives rla op index = registers_only-Gives _ 4 rotate_a_left-IsState
  execute_base_case-Gives jr op index = jr_always-Gives
  execute_base_case-Gives ld_a_de op index = load_a_at-Gives get_de
  execute_base_case-Gives rra op index = registers_only-Gives _ 4 rotate_a_right-IsState
  execute_base_case-Gives jr_cc op index = jr_if-Gives op
  execute_base_case-Gives ld_nn_hl op index = store_index_at_nn-Gives index
  execute_base_case-Gives adjust op index = adjust_a-Gives
  execute_base_case-Gives ld_hl_nn op index = load_index_at_nn-Gives index
  execute_base_case-Gives cpl op index = registers_only-Gives _ 4 complement_a-IsState
  execute_base_case-Gives ld_nn_a op index = store_a_at_nn-Gives
  execute_base_case-Gives inc_hl_mem op index = inc_memory-Gives index
  execute_base_case-Gives dec_hl_mem op index = dec_memory-Gives index
  execute_base_case-Gives ld_hl_mem_n op index = ld_memory_imm-Gives index
  execute_base_case-Gives scf op index = registers_only-Gives _ 4 set_carry-IsState
  execute_base_case-Gives ld_a_nn op index = load_a_at_nn-Gives
  execute_base_case-Gives ccf op index = registers_only-Gives _ 4 invert_carry-IsState
  execute_base_case-Gives stop op index = halt_cpu-Gives
  execute_base_case-Gives exx op index = registers_only-Gives _ 4 exchange_shadow-IsState
  execute_base_case-Gives in_a_n op index = input_a-Gives
  execute_base_case-Gives out_n_a op index = output_a-Gives
  execute_base_case-Gives ex_sp_hl op index = exchange_stack_top-Gives index
  execute_base_case-Gives jp_hl op index =
      registers_only-Gives _ 4 (λ s v. set_pc-IsState s v _ (get_index_value-IsWord s v index))
  execute_base_case-Gives ex_de_hl op index = registers_only-Gives _ 4 exchange_de_hl-IsState
  execute_base_case-Gives di op index = registers_only-Gives _ 4 (set_iffs-IsState 0 (omega arith))
  execute_base_case-Gives ld_sp_hl op index = registers_only-Gives _ _ (load_sp-IsState index)
  execute_base_case-Gives ei op index = enable_interrupts-Gives
  execute_base_case-Gives ld_r_r op index = ld_reg_reg-Gives op index
  execute_base_case-Gives ld_n_group op index =
      Gives-if _ (ld_memory_imm-Gives index) (ld_reg_imm-Gives op index)
  execute_base_case-Gives inc_dec_group op index = inc_dec-Gives op index
  execute_base_case-Gives alu_r op index = alu_reg-Gives op index
  execute_base_case-Gives ret_cc op index = return_if-Gives op
  execute_base_case-Gives pop op index = pop_pair-Gives op index
  execute_base_case-Gives jp_cc op index = jump_if-Gives op
  execute_base_case-Gives jp_nn op index = jump_always-Gives
  execute_base_case-Gives call_cc op index = call_if-Gives op
  execute_base_case-Gives push op index = push_pair-Gives op index
  execute_base_case-Gives add_n op index = alu_imm-Gives _ (λ value h. add_to_a-Gives false value)
  execute_base_case-Gives rst op index = restart-Gives op
  execute_base_case-Gives ret op index = return_always-Gives
  execute_base_case-Gives call_nn op index = call_always-Gives
  execute_base_case-Gives adc_n op index = alu_imm-Gives _ (λ value h. add_to_a-Gives true value)
  execute_base_case-Gives sub_n op index = alu_imm-Gives _ (λ value h. sub_from_a-Gives false value)
  execute_base_case-Gives sbc_n op index = alu_imm-Gives _ (λ value h. sub_from_a-Gives true value)
  execute_base_case-Gives and_n op index = alu_imm-Gives _ (λ value h. and_a-Gives value)
  execute_base_case-Gives xor_n op index = alu_imm-Gives _ (λ value h. xor_a-Gives value)
  execute_base_case-Gives or_n op index = alu_imm-Gives _ (λ value h. or_a-Gives value)
  execute_base_case-Gives cp_n op index = alu_imm-Gives _ compare_a-Gives
  execute_base_case-Gives no_case op index = Gives-modify (report_unimplemented-IsState op)

  pub execute_base-Gives :
      (op : ℕ) (index : IndexMode)
      → IsByte op
      → (op == 0xcb || op == 0xdd || op == 0xed || op == 0xfd) ≡ false
      → Gives {U = U} IsImplemented (execute_base op index)
  unfolding execute_base
  execute_base-Gives op index h other =
      execute_base_case-Gives _ op index
      ▷ Gives-pure {P = IsImplemented} _ (λ e. differs other ((case_result-decode op h).0 e))
