-- ===== src/Trace/SelfLoop.antt =====
-- src/main.cpp, lines 1675-1688: the loop detection compares snapshots that have the register R, which
-- every instruction changes.
use z80_trace.Common.{ℕ, suc, ◌+◌, Bool, true, false, ◌≡◌, refl}
use z80_trace.Common.{◌∙◌, arith, u16, ◌==◌, add_disp, not}
use z80_trace.Common.Table.{holds_below, read_table}
use z80_trace.Cpu.State.{Machine}
use z80_trace.Cpu.Monad.{run_cpu}
use z80_trace.Cpu.Registers.{set_pc}
use z80_trace.Cpu.Bus.{fetch_opcode_byte, read_immediate8, read_memory, trace_event, increment_r}
use z80_trace.Cpu.Bus.{advance_pc, next_r, add_cycles}
use z80_trace.Cpu.Base.{execute_base, execute_base_case}
use z80_trace.Cpu.Base.Decode.{decode}
use z80_trace.Cpu.Base.Jump.{jr_always, jump_relative}
use z80_trace.Cpu.Step.{begin_step, skip_prefixes, is_prefix, execute_opcode, run_opcode}
use z80_trace.Cpu.Step.{execute_instruction, irq_accepted, emulate_op}
use z80_trace.Cpu.Switch.{one_of, switch_on}
use z80_trace.Cpu.Valid.Defs.{IsByte, IsWord, IsState}
use z80_trace.Trace.LoopState.{LoopState, capture_loop_state, same_loop_state}

r_test : ℕ → Bool
r_test r = not (next_r r == r)

r_table : holds_below r_test 256 ≡ true
unfolding holds_below r_test next_r
r_table = refl

-- R is another after each fetch.
next_r-differs : (r : ℕ) → IsByte r → (next_r r == r) ≡ false
unfolding r_test
next_r-differs r h = let row = read_table r_test 256 r h r_table in ground (arith, row)

-- Snapshots that differ in R are not the same.
same_loop_state-r : (x y : LoopState) → (x.r == y.r) ≡ false → same_loop_state x y ≡ false
unfolding same_loop_state
same_loop_state-r x y h = ground (arith, h)

back : (pc : ℕ) → IsWord pc → add_disp (u16 (u16 (pc + 1) + 1)) 0xfe ≡ pc
back pc h = ground arith

module _ {U : Type 0} where
  -- `JR -2`, step by step: the machine that it leaves.
  jr_self :
      (fuel : ℕ) (m : Machine U)
      → m.state.memory m.state.pc ≡ 0x18
      → m.state.memory (u16 (m.state.pc + 1)) ≡ 0xfe
      → m.state.nmi_pending ≡ 0
      → m.state.irq_pending ≡ 0
      → m.state.halted ≡ 0
      → ((emulate_op (suc fuel) m).1.state.pc ≡ add_disp (u16 (u16 (m.state.pc + 1) + 1)) 0xfe)
        × ((emulate_op (suc fuel) m).1.state.r ≡ next_r m.state.r)
  unfolding emulate_op begin_step run_cpu irq_accepted execute_instruction skip_prefixes is_prefix
      run_opcode execute_opcode execute_base execute_base_case decode one_of switch_on jr_always
      jump_relative set_pc fetch_opcode_byte read_immediate8 read_memory trace_event increment_r
      advance_pc add_cycles
  jr_self fuel m jump self no_nmi no_irq running =
      (rw (no_nmi, no_irq, running, jump, self) refl, rw (no_nmi, no_irq, running, jump) refl)

  -- `JR -2`, an instruction that jumps to itself, on a well-formed processor that is not halted and
  -- has no interrupt pending: the program counter is the same after the step, but the snapshots of
  -- before and after are not, so the loop detection does not see the loop.
  pub same_loop_state-emulate_op :
      (fuel : ℕ) (m : Machine U)
      → IsState m.state
      → m.state.memory m.state.pc ≡ 0x18
      → m.state.memory (u16 (m.state.pc + 1)) ≡ 0xfe
      → m.state.nmi_pending ≡ 0
      → m.state.irq_pending ≡ 0
      → m.state.halted ≡ 0
      → ((emulate_op (suc fuel) m).1.state.pc ≡ m.state.pc)
        × (same_loop_state
              (capture_loop_state (emulate_op (suc fuel) m).1.state)
              (capture_loop_state m.state)
            ≡ false)
  unfolding capture_loop_state
  same_loop_state-emulate_op fuel m v jump self no_nmi no_irq running =
      let (pc, r) = jr_self fuel m jump self no_nmi no_irq running in
      let differs : ((emulate_op (suc fuel) m).1.state.r == m.state.r) ≡ false =
        rw (r) (next_r-differs m.state.r v.r_byte) in
      (pc ∙ back m.state.pc v.pc_word, same_loop_state-r _ _ differs)
