-- ===== src/Tests/Examples.antt =====
-- The theorems about the processor, each at a concrete input.
use z80_trace.Common.{
  ℕ, zero, suc, true, ◌≡◌, ◌≢◌, refl, ◌↔◌, ◌+◌, ◌-◌, ◌%◌, none, List, [], ◌∷◌, inl, inr, ◌||◌, ◌==◌,
}
use z80_trace.Common.{u8, u16, test, leb, ltb, arith}
use z80_trace.Cpu.Registers.{compose16}
use z80_trace.Cpu.Interrupt.{service_maskable_interrupt}
use z80_trace.Cpu.State.{Machine, unimplemented}
use z80_trace.Cpu.Monad.{◌>>◌}
use z80_trace.Cpu.Flags.{flag_c}
use z80_trace.Cpu.Alu.{add8_flags, sub8_flags, compare8_flags, daa_result, daa_flags}
use z80_trace.Cpu.Alu.{rotate_left_carry, rotate_right_carry, rotate_cases}
use z80_trace.Cpu.Bus.{push16, pop16}
use z80_trace.Cpu.Ed.{execute_ed}
use z80_trace.Cpu.Interrupt.{service_nmi}
use z80_trace.Cpu.Base.{enable_interrupts, execute_base, case_result}
use z80_trace.Cpu.Base.Decode.{decode}
use z80_trace.Cpu.Step.{is_prefix, begin_step, execute_instruction, emulate_op}
use z80_trace.Cpu.Valid.Defs.{AreBytes, IsState, IsMachine, IsDone}
use z80_trace.Cpu.Valid.Step.{emulate_op-IsMachine, emulate_op-IsDone}
use z80_trace.Cpu.Laws.Prefix.{emulate_op-returns, emulate_op-loops}
use z80_trace.Cpu.Laws.Add.{AreSumFlags, add8_flags-AreSumFlags}
use z80_trace.Cpu.Laws.Sub.{AreDifferenceFlags, sub8_flags-AreDifferenceFlags}
use z80_trace.Cpu.Laws.Sub.{compare8_flags-AreDifferenceFlags}
use z80_trace.Cpu.Laws.Decimal.{IsDecimal, decimal, daa_result-add8_flags, daa_result-sub8_flags}
use z80_trace.Cpu.Laws.Opcode.{case_result-decode}
use z80_trace.Cpu.Laws.Stack.{pop16-push16}
use z80_trace.Cpu.Laws.Pairs.{swap_shadow, swap_af, execute_base-swap_shadow}
use z80_trace.Cpu.Laws.Rotate.{rotate_right_carry-rotate_left_carry, rotate_cases-rotate_cases}
use z80_trace.Cpu.Laws.Interrupt.{
  execute_ed-service_nmi, emulate_op-enable_interrupts, emulate_op-execute_base,
}
use z80_trace.Tests.Run.{program, power_on, machine}
use z80_trace.Common.{not, ◌&&◌, if◌then◌else◌, ◌*◌, ◌/◌}
use z80_trace.Cpu.State.{StateZ80, init_z80, reset_z80}
use z80_trace.Cpu.Registers.{
  index_none, index_iy, index_ix, get_hl, get_de, get_bc, get_rp, set_rp, get_reg8_simple,
  set_reg8_simple,
}
use z80_trace.Cpu.Bus.{next_r}
use z80_trace.Cpu.Ed.Block.{block_load}
use z80_trace.Cpu.Laws.Block.{block_loads, block_loads-copied, block_load-repeats}
use z80_trace.Cpu.Laws.Block.Copy.{copied}
use z80_trace.Cpu.Laws.Select.{get_rp-set_rp, get_reg8_simple-set_reg8_simple}
use z80_trace.Cpu.Laws.Reset.{switched_on, reset_z80-init_z80, next_r-counts}
use z80_trace.Cpu.Laws.Interrupt.{emulate_op-service_maskable_interrupt}

-- LD (IY-1),0x2a behind a superfluous DD.
abbrev pub code : List ℕ
code = 0xdd ∷ 0xfd ∷ 0x36 ∷ 0xff ∷ 0x2a ∷ []

pub code-AreBytes : AreBytes (program code)
code-AreBytes zero = omega arith
code-AreBytes (suc zero) = omega arith
code-AreBytes (suc (suc zero)) = omega arith
code-AreBytes (suc (suc (suc zero))) = omega arith
code-AreBytes (suc (suc (suc (suc zero)))) = omega arith
code-AreBytes (suc (suc (suc (suc (suc addr))))) = omega arith

abbrev pub sample : Machine ℕ
sample = machine (power_on code)

pub power_on-IsState : (bytes : List ℕ) → AreBytes (program bytes) → IsState (power_on bytes)
power_on-IsState bytes h = record {
  a_byte = omega arith;
  f_byte = omega arith;
  a_alt_byte = omega arith;
  f_alt_byte = omega arith;
  b_byte = omega arith;
  c_byte = omega arith;
  b_alt_byte = omega arith;
  c_alt_byte = omega arith;
  d_byte = omega arith;
  e_byte = omega arith;
  d_alt_byte = omega arith;
  e_alt_byte = omega arith;
  h_byte = omega arith;
  l_byte = omega arith;
  h_alt_byte = omega arith;
  l_alt_byte = omega arith;
  ix_word = omega arith;
  iy_word = omega arith;
  sp_word = omega arith;
  pc_word = omega arith;
  i_byte = omega arith;
  r_byte = omega arith;
  im_mode = omega arith;
  iff1_byte = omega arith;
  iff2_byte = omega arith;
  irq_vector_byte = omega arith;
  memory_bytes = h;
  io_space_bytes = λ x. omega arith;
  io_read_bytes = tt;
}

pub sample-IsState : IsState sample.state
sample-IsState = power_on-IsState code code-AreBytes

sample-IsMachine : IsMachine sample
sample-IsMachine = record { state_ok = sample-IsState; events_ok = omega arith }

emulate_op-IsMachine_example : IsMachine (emulate_op 8 sample).1
emulate_op-IsMachine_example = emulate_op-IsMachine 8 sample sample-IsMachine

emulate_op-IsDone_example : IsDone (emulate_op 8 sample).0
emulate_op-IsDone_example = emulate_op-IsDone 8 sample sample-IsMachine (inr refl)

emulate_op-returns_example : (emulate_op 65537 sample).0 ≢ none
unfolding is_prefix
emulate_op-returns_example =
    emulate_op-returns 2 65537 sample (omega arith) (omega arith) refl (omega arith)

-- A memory that is full of the byte DD. A maskable interrupt is pending, and masked.
abbrev stuck : Machine ℕ
stuck = machine (record (power_on []) { memory = λ _. 0xdd; irq_pending = 1 })

emulate_op-loops_example : (emulate_op 1000000 stuck).0 ≡ none
unfolding is_prefix
emulate_op-loops_example = emulate_op-loops 1000000 stuck (λ x. refl) refl (inr (inl refl)) refl

add8_flags-AreSumFlags_example : AreSumFlags 0x7f 0x80 1 (add8_flags 0x7f 0x80 1)
add8_flags-AreSumFlags_example =
    add8_flags-AreSumFlags 0x7f 0x80 1 (omega arith) (omega arith) (omega arith)

sub8_flags-AreDifferenceFlags_example : AreDifferenceFlags 0x80 0x01 1 (sub8_flags 0x80 0x01 1)
sub8_flags-AreDifferenceFlags_example =
    sub8_flags-AreDifferenceFlags 0x80 0x01 1 (omega arith) (omega arith) (omega arith)

compare8_flags-AreDifferenceFlags_example :
    AreDifferenceFlags 0x10 0x2f 0 (compare8_flags 0x10 0x2f)
compare8_flags-AreDifferenceFlags_example =
    compare8_flags-AreDifferenceFlags 0x10 0x2f (omega arith) (omega arith)

d58-IsDecimal : IsDecimal 0x58
d58-IsDecimal = record { tens = omega arith; units = omega arith }

d67-IsDecimal : IsDecimal 0x67
d67-IsDecimal = record { tens = omega arith; units = omega arith }

daa_result-add8_flags_example :
    let flags = add8_flags 0x58 0x67 1 in
    let sum = u8 (u16 (0x58 + 0x67 + 1)) in
    IsDecimal (daa_result flags sum)
    × (decimal (daa_result flags sum) ≡ (decimal 0x58 + decimal 0x67 + 1) % 100)
    × (test (daa_flags flags sum) flag_c ≡ leb 100 (decimal 0x58 + decimal 0x67 + 1))
daa_result-add8_flags_example =
    daa_result-add8_flags 0x58 0x67 1 d58-IsDecimal d67-IsDecimal (omega arith)

daa_result-sub8_flags_example :
    let flags = sub8_flags 0x58 0x67 0 in
    let diff = u8 (u16 (0x58 + 65536 - 0x67 - 0)) in
    IsDecimal (daa_result flags diff)
    × (decimal (daa_result flags diff) ≡ (decimal 0x58 + 100 - decimal 0x67 - 0) % 100)
    × (test (daa_flags flags diff) flag_c ≡ ltb (decimal 0x58) (decimal 0x67 + 0))
daa_result-sub8_flags_example =
    daa_result-sub8_flags 0x58 0x67 0 d58-IsDecimal d67-IsDecimal (omega arith)

case_result-decode_example :
    (case_result (decode 0x76) ≡ unimplemented)
    ↔ ((0x76 == 0xcb || 0x76 == 0xdd || 0x76 == 0xed || 0x76 == 0xfd) ≡ true)
case_result-decode_example = case_result-decode 0x76 (omega arith)

-- The stack pointer runs below 0.
abbrev low_stack : Machine ℕ
low_stack = machine (record (power_on code) { sp = 1; pc = 0x1234; iff1 = 1 })

pop16-push16_example :
    ((push16 0xbeef >> pop16) low_stack).0 ≡ 0xbeef
    × ((push16 0xbeef >> pop16) low_stack).1.state.sp ≡ 1
pop16-push16_example = pop16-push16 0xbeef low_stack (omega arith) (omega arith)

execute_ed-service_nmi_example :
    let m' = ((service_nmi >> execute_ed 0x45) low_stack).1 in
    (m'.state.pc ≡ 0x1234) × (m'.state.sp ≡ 1) × (m'.state.iff1 ≡ 1)
execute_ed-service_nmi_example = execute_ed-service_nmi low_stack (omega arith) (omega arith)

-- A maskable interrupt is pending.
abbrev waiting : Machine ℕ
waiting = machine (record (power_on code) { irq_pending = 1; iff1 = 1; im = 1 })

emulate_op-enable_interrupts_example :
    emulate_op 8 (enable_interrupts waiting).1
    ≡ (begin_step >> execute_instruction 8) (enable_interrupts waiting).1
emulate_op-enable_interrupts_example = emulate_op-enable_interrupts 8 waiting refl refl

emulate_op-execute_base_example :
    let m' = (execute_base 0xf3 index_none waiting).1 in
    (m'.state.iff1 ≡ 0)
    × (m'.state.iff2 ≡ 0)
    × (emulate_op 8 m' ≡ (begin_step >> execute_instruction 8) m')
emulate_op-execute_base_example = emulate_op-execute_base 8 index_none waiting refl refl

execute_base-swap_shadow_example :
    ((execute_base 0xd9 index_none sample).1.state ≡ swap_shadow sample.state)
    × ((execute_base 0x08 index_none sample).1.state ≡ swap_af sample.state)
execute_base-swap_shadow_example = execute_base-swap_shadow index_none sample sample-IsState

rotate_right_carry-rotate_left_carry_example :
    (rotate_right_carry (rotate_left_carry 0x81) ≡ 0x81)
    × (rotate_left_carry (rotate_right_carry 0x81) ≡ 0x81)
rotate_right_carry-rotate_left_carry_example =
    rotate_right_carry-rotate_left_carry 0x81 (omega arith)

rotate_cases-rotate_cases_example :
    (rotate_cases (rotate_cases 1 0x81 2).0 (rotate_cases 1 0x81 2).1 3 ≡ (1, 0x81))
    × (rotate_cases (rotate_cases 1 0x81 3).0 (rotate_cases 1 0x81 3).1 2 ≡ (1, 0x81))
rotate_cases-rotate_cases_example = rotate_cases-rotate_cases 1 0x81 (omega arith) (omega arith)

-- Five bytes at 0 are to go to 0x100.
abbrev mover : Machine ℕ
mover = machine (record (power_on code) { d = 1; c = 5 })

block_loads-copied_example :
    ((block_loads 0xb0 3 mover).state.memory 0x101
      ≡ copied 3 (get_hl mover.state) (get_de mover.state) mover.state.memory 0x101)
    × (get_bc (block_loads 0xb0 3 mover).state ≡ get_bc mover.state - 3)
unfolding get_hl get_de get_bc compose16
block_loads-copied_example =
    block_loads-copied 0xb0 3 mover 0x101 refl (omega arith) (omega arith) (inr (omega arith))
      (omega arith)

block_load-repeats_example :
    ((block_load 0xb0 mover).1.state.pc ≡ (
      if test 0xb0 0x10 && not (get_bc (block_load 0xb0 mover).1.state == 0)
      then u16 (mover.state.pc + 65536 - 2)
      else mover.state.pc))
    × (get_bc (block_load 0xb0 mover).1.state ≡ u16 (get_bc mover.state + 65536 - 1))
block_load-repeats_example = block_load-repeats 0xb0 mover

emulate_op-service_maskable_interrupt_example :
    let m' = (service_maskable_interrupt waiting).1 in
    let again = record m' { state = record (m'.state) { irq_pending = 1 } } in
    emulate_op 8 again ≡ (begin_step >> execute_instruction 8) again
emulate_op-service_maskable_interrupt_example =
    emulate_op-service_maskable_interrupt 8 1 waiting refl

get_rp-set_rp_example : get_rp 2 index_iy (set_rp 2 index_iy 0xbeef sample.state) ≡ 0xbeef
get_rp-set_rp_example = get_rp-set_rp 2 index_iy 0xbeef sample.state (omega arith)

get_reg8_simple-set_reg8_simple_example :
    get_reg8_simple 5 index_ix (set_reg8_simple 5 index_ix 0x9a sample.state) ≡ 0x9a
get_reg8_simple-set_reg8_simple_example =
    get_reg8_simple-set_reg8_simple 5 index_ix 0x9a sample.state (omega arith)

-- The processor that is switched on before it has a memory.
abbrev blank : StateZ80 ℕ
blank = record (power_on []) { sp = 0; pc = 0; irq_vector = 0; memory = λ _. 0 }

reset_z80-init_z80_example :
    IsState (reset_z80 0x100 0xfffe (emulate_op 8 sample).1.state)
    × (reset_z80 0x100 0xfffe (emulate_op 8 sample).1.state
        ≡ switched_on 0x100 0xfffe (emulate_op 8 sample).1.state blank)
unfolding init_z80
reset_z80-init_z80_example =
    reset_z80-init_z80 0x100 0xfffe (emulate_op 8 sample).1.state blank 0 (omega arith)
      (omega arith) (emulate_op-IsMachine 8 sample sample-IsMachine).state_ok refl

next_r-counts_example : next_r 0xff ≡ 0xff / 128 * 128 + (0xff + 1) % 128
next_r-counts_example = next_r-counts 0xff (omega arith)
