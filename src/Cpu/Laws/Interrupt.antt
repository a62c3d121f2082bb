-- ===== src/Cpu/Laws/Interrupt.antt =====
-- src/z80_exec.c, `ServiceNMI`, `ServiceMaskableInterrupt` and the head of `EmulateZ80Op`: what an
-- interrupt saves, and when it is held back.
use z80_trace.Common.{ℕ, Bool, true, false, ◌&&◌, ◌==◌, if◌then◌else◌, bit_and}
use z80_trace.Common.{◌≡◌, refl, ◌∙◌, arith}
use z80_trace.Cpu.State.{StateZ80, Machine}
use z80_trace.Cpu.Monad.{Cpu, run_cpu, ◌>>◌, pure}
use z80_trace.Cpu.Registers.{IndexMode, set_pc}
use z80_trace.Cpu.Bus.{push16, pop16, decrement_sp, write_memory, read_memory16, read_memory}
use z80_trace.Cpu.Bus.{update_min_sp, trace_event, add_cycles}
use z80_trace.Cpu.Interrupt.{accept_nmi, service_nmi, accept_irq, service_maskable_interrupt}
use z80_trace.Cpu.Interrupt.{call_vector, service_im2, service_im0, set_error_text}
use z80_trace.Cpu.Switch.{one_of, switch_on}
use z80_trace.Cpu.Ed.{decode_ed, execute_ed_case, execute_ed}
use z80_trace.Cpu.Base.{enable_interrupts, registers_only, set_iffs, execute_base}
use z80_trace.Cpu.Base.{execute_base_case}
use z80_trace.Cpu.Base.Decode.{decode, decode_rest}
use z80_trace.Cpu.Step.{begin_step, execute_instruction, irq_accepted, emulate_op}
use z80_trace.Cpu.Valid.Defs.{IsWord}
use z80_trace.Cpu.Laws.Stack.{stored_word}

masked_and : (b : Bool) → (b && false) ≡ false
masked_and true = refl
masked_and false = refl

module _ {U : Type 0} where
  -- A non-maskable interrupt and then `RETN` (ED 45): the program counter, the stack pointer and the
  -- interrupt flip-flop are what they were, if the first two are words.
  pub execute_ed-service_nmi :
      (m : Machine U)
      → IsWord m.state.pc
      → IsWord m.state.sp
      → let m' = ((service_nmi >> execute_ed 0x45) m).1 in
        (m'.state.pc ≡ m.state.pc) × (m'.state.sp ≡ m.state.sp) × (m'.state.iff1 ≡ m.state.iff1)
  unfolding run_cpu ◌>>◌ service_nmi accept_nmi execute_ed execute_ed_case decode_ed one_of
      switch_on push16 pop16 decrement_sp write_memory read_memory16 read_memory update_min_sp
      trace_event add_cycles set_pc
  execute_ed-service_nmi m hp hs =
      (stored_word m.state.memory m.state.sp m.state.pc hs hp, omega arith, refl)

  -- A step without an interrupt, of a processor that is not halted.
  runs_instruction :
      (fuel : ℕ) (m : Machine U)
      → m.state.nmi_pending ≡ 0
      → irq_accepted m.state.ei_pending m.state ≡ false
      → m.state.halted ≡ 0
      → emulate_op fuel m ≡ (begin_step >> execute_instruction fuel) m
  unfolding emulate_op begin_step irq_accepted run_cpu ◌>>◌
  runs_instruction fuel m no_nmi no_irq running = rw (no_nmi, no_irq, running) refl

  -- The step after `EI` executes an instruction, whatever maskable interrupt is pending, if there is
  -- no other and the processor is not halted.
  pub emulate_op-enable_interrupts :
      (fuel : ℕ) (m : Machine U)
      → m.state.nmi_pending ≡ 0
      → m.state.halted ≡ 0
      → emulate_op fuel (enable_interrupts m).1
        ≡ (begin_step >> execute_instruction fuel) (enable_interrupts m).1
  unfolding enable_interrupts set_iffs add_cycles irq_accepted run_cpu
  emulate_op-enable_interrupts fuel m no_nmi running =
      runs_instruction fuel (enable_interrupts m).1 no_nmi (ground arith) running

  -- `DI`, the opcode F3, clears both flip-flops, and the step after it executes an instruction,
  -- whatever maskable interrupt is pending, if there is no other and the processor is not halted.
  pub emulate_op-execute_base :
      (fuel : ℕ) (index : IndexMode) (m : Machine U)
      → m.state.nmi_pending ≡ 0
      → m.state.halted ≡ 0
      → let m' = (execute_base 0xf3 index m).1 in
        (m'.state.iff1 ≡ 0)
        × (m'.state.iff2 ≡ 0)
        × (emulate_op fuel m' ≡ (begin_step >> execute_instruction fuel) m')
  unfolding execute_base execute_base_case decode decode_rest one_of switch_on ◌>>◌ pure
      registers_only set_iffs add_cycles irq_accepted run_cpu
  emulate_op-execute_base fuel index m no_nmi running = (
    refl,
    refl,
    runs_instruction fuel (execute_base 0xf3 index m).1 no_nmi (ground arith) running,
  )

  -- The flip-flops and HALT once a maskable interrupt is taken, in every mode.
  record IsMasked (nmi : ℕ) (s : StateZ80 U) : Type 0 where
    pub iff1_clear : s.iff1 ≡ 0
    pub iff2_clear : s.iff2 ≡ 0
    pub running : s.halted ≡ 0
    pub nmi_kept : s.nmi_pending ≡ nmi

  state-IsMasked :
      {nmi : ℕ} {s : StateZ80 U}
      → s.iff1 ≡ 0
      → s.iff2 ≡ 0
      → s.halted ≡ 0
      → s.nmi_pending ≡ nmi
      → IsMasked nmi s
  state-IsMasked h1 h2 h3 h4 = record {
    iff1_clear = h1;
    iff2_clear = h2;
    running = h3;
    nmi_kept = h4;
  }

  either-IsMasked :
      {A : Type 0} {nmi : ℕ} (b : Bool) (p q : Cpu U A) (m : Machine U)
      → IsMasked nmi (p m).1.state
      → IsMasked nmi (q m).1.state
      → IsMasked nmi ((if b then p else q) m).1.state
  either-IsMasked true p q m hp hq = hp
  either-IsMasked false p q m hp hq = hq

  service-IsMasked :
      (m : Machine U) → IsMasked m.state.nmi_pending (service_maskable_interrupt m).1.state
  unfolding service_maskable_interrupt accept_irq service_im2 service_im0 call_vector set_error_text
      run_cpu push16 decrement_sp write_memory read_memory16 read_memory update_min_sp trace_event
      add_cycles set_pc
  service-IsMasked m =
      either-IsMasked (m.state.im == 2) _ _ _ (state-IsMasked refl refl refl refl) (
        either-IsMasked (m.state.im == 0) _ _ _
          (either-IsMasked (bit_and m.state.irq_vector 0xc7 == 0xc7) _ _ _
            (state-IsMasked refl refl refl refl) (state-IsMasked refl refl refl refl))
          (state-IsMasked refl refl refl refl))

  -- No maskable interrupt is taken inside another: after the service of one, with a new one pending
  -- at once and no other interrupt, the step executes an instruction, in every interrupt mode.
  pub emulate_op-service_maskable_interrupt :
      (fuel pending : ℕ) (m : Machine U)
      → m.state.nmi_pending ≡ 0
      → let m' = (service_maskable_interrupt m).1 in
        let waiting = record m' { state = record (m'.state) { irq_pending = pending } } in
        emulate_op fuel waiting ≡ (begin_step >> execute_instruction fuel) waiting
  unfolding irq_accepted
  emulate_op-service_maskable_interrupt fuel pending m no_nmi =
      let ok : IsMasked m.state.nmi_pending (service_maskable_interrupt m).1.state =
        service-IsMasked m in
      runs_instruction fuel _ (ok.nmi_kept ∙ no_nmi) (rw (ok.iff1_clear) (masked_and _)) ok.running
