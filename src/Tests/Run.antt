-- ===== src/Tests/Run.antt =====
-- A machine with a program at address 0, and runs of it.
use z80_trace.Common.{ℕ, zero, suc, false, Option, none, some, List, [], ◌∷◌, ◌≡◌, refl}
use z80_trace.Cpu.State.{StateZ80, Machine, Bytes, StepResult}
use z80_trace.Cpu.Monad.{run_cpu}
use z80_trace.Cpu.Registers.{high_byte, low_byte, compose16, set_a, set_f, set_pc, get_af}
use z80_trace.Cpu.Registers.{get_bc, get_de, get_hl, get_af_alt, get_bc_alt, get_de_alt}
use z80_trace.Cpu.Registers.{get_hl_alt, set_af, set_bc, set_de, set_hl, set_af_alt, set_bc_alt}
use z80_trace.Cpu.Registers.{set_de_alt, set_hl_alt, get_index_value, set_index_value}
use z80_trace.Cpu.Registers.{effective_indexed_address, get_index_high, get_index_low}
use z80_trace.Cpu.Registers.{set_index_high, set_index_low, get_reg8_simple, set_reg8_simple}
use z80_trace.Cpu.Registers.{get_rp, set_rp, get_rp2, set_rp2, exchange_af, exchange_shadow}
use z80_trace.Cpu.Registers.{condition_met}
use z80_trace.Cpu.Flags.{or_if, count_ones, parity, flags_sz53, flags_szp53}
use z80_trace.Cpu.Alu.{complement, add8_flags, sub8_flags, inc8_flags, dec8_flags}
use z80_trace.Cpu.Alu.{compare8_flags, add16_flags, add16_carry_flags, sub16_carry_flags, add8}
use z80_trace.Cpu.Alu.{sub8, inc8, dec8, logic_and, logic_or, logic_xor, compare8, add16}
use z80_trace.Cpu.Alu.{add16_carry, sub16_carry, rotate_left_carry, rotate_right_carry}
use z80_trace.Cpu.Alu.{rotate_cases, daa_adjust, daa_result, daa_flags, bit_test_flags}
use z80_trace.Cpu.Alu.{rotate_cb, daa, bit_test}
use z80_trace.Cpu.Bus.{record_event, lower_min_sp, next_r, trace_event, add_cycles}
use z80_trace.Cpu.Bus.{update_min_sp, increment_r, advance_pc, fetch_opcode_byte, read_memory}
use z80_trace.Cpu.Bus.{write_memory, read_immediate8, read_immediate16, read_memory16}
use z80_trace.Cpu.Bus.{write_memory16, read_space, store_port, input_port, read_port}
use z80_trace.Cpu.Bus.{ask_device, tell_device, write_port, operand_address, read_reg8, write_reg8}
use z80_trace.Cpu.Bus.{decrement_sp, push16, pop16}
use z80_trace.Cpu.Interrupt.{set_error_text, accept_nmi, service_nmi, accept_irq, call_vector}
use z80_trace.Cpu.Interrupt.{service_im2, service_im0, service_maskable_interrupt}
use z80_trace.Cpu.Cb.{res_bit, set_bit, store_cb, execute_rotate, execute_bit, execute_cb}
use z80_trace.Cpu.Ed.{decode_ed, set_input_flags, set_interrupt_flags, set_im, execute_ed_case}
use z80_trace.Cpu.Ed.{execute_ed}
use z80_trace.Cpu.Ed.Block.{move_pointer, load_flags, search_flags, step_pointers, finish_block}
use z80_trace.Cpu.Ed.Block.{block_load, block_compare, step_io, block_input, block_output}
use z80_trace.Cpu.Base.{registers_only, set_iffs, enable_interrupts, halt_cpu}
use z80_trace.Cpu.Base.{report_unimplemented, execute_base_case, case_result, execute_base}
use z80_trace.Cpu.Base.Decode.{is_alu_group, decode_rest, decode}
use z80_trace.Cpu.Base.Load.{half_index, half_cycles, memory_operand, displacement, ld_pair_imm}
use z80_trace.Cpu.Base.Load.{ld_reg_imm, store_a_at, load_a_at, store_index_at_nn}
use z80_trace.Cpu.Base.Load.{load_index_at_nn, store_a_at_nn, load_a_at_nn, ld_memory_imm}
use z80_trace.Cpu.Base.Load.{input_a, output_a, exchange_stack_top, exchange_de_hl, load_sp}
use z80_trace.Cpu.Base.Load.{ld_reg_reg, pop_pair, push_pair}
use z80_trace.Cpu.Base.Arith.{kept_flags, inc_pair, dec_pair, inc_reg, dec_reg, inc_memory}
use z80_trace.Cpu.Base.Arith.{dec_memory, inc_dec, add_index, rotate_a_left_circular}
use z80_trace.Cpu.Base.Arith.{rotate_a_right_circular, rotate_a_left, rotate_a_right}
use z80_trace.Cpu.Base.Arith.{complement_a, set_carry, invert_carry, adjust_a, add_to_a}
use z80_trace.Cpu.Base.Arith.{sub_from_a, and_a, xor_a, or_a, compare_a, alu_a, alu_reg}
use z80_trace.Cpu.Base.Arith.{alu_imm}
use z80_trace.Cpu.Base.Jump.{jump_relative, jr_always, jr_if, decrement_b, dec_jump}
use z80_trace.Cpu.Base.Jump.{jump_always, jump_if, call_to, call_always, call_if, restart}
use z80_trace.Cpu.Base.Jump.{return_to, return_always, return_if}
use z80_trace.Cpu.Step.{is_prefix, interrupt_result, begin_step, skip_prefixes}
use z80_trace.Cpu.Step.{execute_cb_prefix, execute_ed_prefix, execute_opcode, run_opcode}
use z80_trace.Cpu.Step.{execute_instruction, irq_accepted, emulate_op}
use z80_trace.Cpu.Switch.{one_of, switch_on}

-- `IN` answers the low byte of the port; the device's state counts the accesses.
abbrev pub program : List ℕ → Bytes
program [] addr = 0
program (x ∷ xs) zero = x
program (x ∷ xs) (suc addr) = program xs addr

abbrev pub power_on : List ℕ → StateZ80 ℕ
power_on bytes = record {
  a = 0;
  f = 0;
  a_alt = 0;
  f_alt = 0;
  b = 0;
  c = 0;
  b_alt = 0;
  c_alt = 0;
  d = 0;
  e = 0;
  d_alt = 0;
  e_alt = 0;
  h = 0;
  l = 0;
  h_alt = 0;
  l_alt = 0;
  ix = 0;
  iy = 0;
  sp = 0x8000;
  pc = 0;
  i = 0;
  r = 0;
  im = 0;
  iff1 = 0;
  iff2 = 0;
  ei_pending = 0;
  nmi_pending = 0;
  irq_pending = 0;
  irq_vector = 0xff;
  halted = 0;
  memory = program bytes;
  io_space = some (λ _. 0);
  io_user = 0;
  io_read = none;
  io_write = none;
  last_error = none;
}

abbrev pub machine : StateZ80 ℕ → Machine ℕ
machine s = record {
  state = s;
  stats = some (record { total_tstates = 0; min_sp = 0; min_sp_set = false });
  events = some [];
}

-- One step, with every function of the model open.
pub step : Machine ℕ → Option StepResult × Machine ℕ
unfolding run_cpu high_byte low_byte compose16 set_a set_f set_pc get_af get_bc get_de get_hl
    get_af_alt get_bc_alt get_de_alt get_hl_alt set_af set_bc set_de set_hl set_af_alt set_bc_alt
    set_de_alt set_hl_alt get_index_value set_index_value effective_indexed_address get_index_high
    get_index_low set_index_high set_index_low get_reg8_simple set_reg8_simple get_rp set_rp get_rp2
    set_rp2 exchange_af exchange_shadow condition_met or_if count_ones parity flags_sz53 flags_szp53
    complement add8_flags sub8_flags inc8_flags dec8_flags compare8_flags add16_flags
    add16_carry_flags sub16_carry_flags add8 sub8 inc8 dec8 logic_and logic_or logic_xor compare8
    add16 add16_carry sub16_carry rotate_left_carry rotate_right_carry rotate_cases daa_adjust
    daa_result daa_flags bit_test_flags rotate_cb daa bit_test record_event lower_min_sp next_r
    trace_event add_cycles update_min_sp increment_r advance_pc fetch_opcode_byte read_memory
    write_memory read_immediate8 read_immediate16 read_memory16 write_memory16 read_space store_port
    input_port read_port ask_device tell_device write_port operand_address read_reg8 write_reg8
    decrement_sp push16 pop16 set_error_text accept_nmi service_nmi accept_irq call_vector
    service_im2 service_im0 service_maskable_interrupt res_bit set_bit store_cb execute_rotate
    execute_bit execute_cb decode_ed set_input_flags set_interrupt_flags set_im execute_ed_case
    execute_ed move_pointer load_flags search_flags step_pointers finish_block block_load
    block_compare step_io block_input block_output registers_only set_iffs enable_interrupts
    halt_cpu report_unimplemented execute_base_case case_result execute_base is_alu_group
    decode_rest decode half_index half_cycles memory_operand displacement ld_pair_imm ld_reg_imm
    store_a_at load_a_at store_index_at_nn load_index_at_nn store_a_at_nn load_a_at_nn ld_memory_imm
    input_a output_a exchange_stack_top exchange_de_hl load_sp ld_reg_reg pop_pair push_pair
    kept_flags inc_pair dec_pair inc_reg dec_reg inc_memory dec_memory inc_dec add_index
    rotate_a_left_circular rotate_a_right_circular rotate_a_left rotate_a_right complement_a
    set_carry invert_carry adjust_a add_to_a sub_from_a and_a xor_a or_a compare_a alu_a alu_reg
    alu_imm jump_relative jr_always jr_if decrement_b dec_jump jump_always jump_if call_to
    call_always call_if restart return_to return_always return_if is_prefix interrupt_result
    begin_step skip_prefixes execute_cb_prefix execute_ed_prefix execute_opcode run_opcode
    execute_instruction irq_accepted emulate_op one_of switch_on
step m = run_cpu (emulate_op 8) m

pub run : ℕ → Machine ℕ → Machine ℕ
run zero m = m
run (suc n) m = run n (step m).1

-- LD A,0x7f; ADD A,1; DAA; LD (0x1234),A; CALL 0x000b
sum_program : Machine ℕ
unfolding step run
sum_program = run 5 (
    machine
      (power_on (0x3e ∷ 0x7f ∷ 0xc6 ∷ 1 ∷ 0x27 ∷ 0x32 ∷ 0x34 ∷ 0x12 ∷ 0xcd ∷ 0x0b ∷ 0x00 ∷ [])))

sum_program_a : sum_program.state.a ≡ 0x86
unfolding sum_program
sum_program_a = refl

sum_program_mem : sum_program.state.memory 0x1234 ≡ 0x86
unfolding sum_program
sum_program_mem = refl

sum_program_stack : sum_program.state.memory 0x7ffe ≡ 0x0b
unfolding sum_program
sum_program_stack = refl

cycles : Option ℕ
unfolding sum_program
cycles = elim sum_program.stats [ none ↦ none | some st ↦ some st.total_tstates ]
