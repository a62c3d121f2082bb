-- ===== src/Cpu/Interrupt.antt =====
-- src/z80_exec.c, lines 421-423 and 702-740: the two interrupt services.
use z80_trace.Common.{ℕ, Bool, true, false, some, bit_and, u8, u16, ◌==◌, if◌then◌else◌}
use z80_trace.Cpu.State.{StateZ80, ErrorText, unsupported_im0, interrupt_ack}
use z80_trace.Cpu.Monad.{Cpu, ◌>>=◌, ◌>>◌, pure, gets, modify}
use z80_trace.Cpu.Registers.{compose16, set_pc}
use z80_trace.Cpu.Bus.{push16, add_cycles, trace_event, read_memory16}

module _ {U : Type 0} where
  -- `SetErrorText`.
  unfoldable pub set_error_text : ErrorText → StateZ80 U → StateZ80 U
  set_error_text text s = record s { last_error = some text }

  -- The assignments of `ServiceNMI` before the push.
  unfoldable pub accept_nmi : StateZ80 U → StateZ80 U
  accept_nmi s = record s { nmi_pending = 0; halted = 0; iff2 = s.iff1; iff1 = 0 }

  unfoldable pub service_nmi : Cpu U (Unit {0})
  service_nmi = do
    modify accept_nmi
    pc ← gets (λ s. s.pc)
    push16 pc
    modify (set_pc 0x0066)
    add_cycles 11

  unfoldable pub accept_irq : StateZ80 U → StateZ80 U
  accept_irq s = record s { irq_pending = 0; halted = 0; iff1 = 0; iff2 = 0 }

  -- Push the program counter, and go on at `target`.
  unfoldable pub call_vector : ℕ → ℕ → Cpu U Bool
  call_vector target cycles = do
    pc ← gets (λ s. s.pc)
    push16 pc
    modify (set_pc target)
    add_cycles cycles
    pure true

  -- Interrupt mode 2: the routine's address stands in the table at `i`.
  unfoldable pub service_im2 : Cpu U Bool
  service_im2 = do
    table ← gets (λ s. compose16 s.i (u8 (bit_and s.irq_vector 0xfe)))
    pc ← gets (λ s. s.pc)
    push16 pc
    target ← read_memory16 table
    modify (set_pc target)
    add_cycles 19
    pure true

  -- Interrupt mode 0 runs `RST` opcodes only.
  unfoldable pub service_im0 : Cpu U Bool
  service_im0 = do
    vector ← gets (λ s. s.irq_vector)
    if bit_and vector 0xc7 == 0xc7 then call_vector (u16 (bit_and vector 0x38)) 13 else (do
      pc ← gets (λ s. s.pc)
      modify (set_error_text (unsupported_im0 vector pc))
      pure false)

  -- `false` is the 0 that is returned for an opcode that mode 0 does not support.
  unfoldable pub service_maskable_interrupt : Cpu U Bool
  service_maskable_interrupt = do
    modify accept_irq
    pc ← gets (λ s. s.pc)
    vector ← gets (λ s. s.irq_vector)
    trace_event interrupt_ack pc vector
    im ← gets (λ s. s.im)
    if im == 2 then service_im2 else (if im == 0 then service_im0 else call_vector 0x0038 13)
