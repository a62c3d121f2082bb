-- ===== src/Cpu/Base/Jump.antt =====
-- src/z80_exec.c: the jumps, calls and returns (lines 1164-1172, 1184-1188, 1200-1210, 1412-1424,
-- 1431-1463 and 1473-1492).
use z80_trace.Common.{ℕ, ◌+◌, ◌-◌, not, bit_and, u8, u16, ◌>>>◌, ◌==◌, add_disp, if◌then◌else◌}
use z80_trace.Cpu.State.{StateZ80}
use z80_trace.Cpu.Monad.{Cpu, ◌>>=◌, ◌>>◌, gets, modify, when}
use z80_trace.Cpu.Registers.{set_pc, condition_met}
use z80_trace.Cpu.Bus.{read_immediate8, read_immediate16, push16, pop16, add_cycles}
use z80_trace.Cpu.Base.Load.{reg_field}

module _ {U : Type 0} where
  -- `state->pc = (UINT16)(state->pc + disp)`.
  unfoldable pub jump_relative : ℕ → StateZ80 U → StateZ80 U
  jump_relative disp s = set_pc (add_disp s.pc disp) s

  unfoldable pub jr_always : Cpu U (Unit {0})
  jr_always = do disp ← read_immediate8; modify (jump_relative disp); add_cycles 12

  unfoldable pub jr_if : ℕ → Cpu U (Unit {0})
  jr_if op = do
    disp ← read_immediate8
    taken ← gets (λ s. condition_met s.f (bit_and (op >>> 3) 0x03))
    when taken (modify (jump_relative disp))
    add_cycles (if taken then 12 else 7)

  unfoldable pub decrement_b : StateZ80 U → StateZ80 U
  decrement_b s = record s { b = u8 (s.b + 256 - 1) }

  unfoldable pub dec_jump : Cpu U (Unit {0})
  dec_jump = do
    disp ← read_immediate8
    modify decrement_b
    taken ← gets (λ s. not (s.b == 0))
    when taken (modify (jump_relative disp))
    add_cycles (if taken then 13 else 8)

  unfoldable pub jump_always : Cpu U (Unit {0})
  jump_always = do addr ← read_immediate16; modify (set_pc addr); add_cycles 10

  unfoldable pub jump_if : ℕ → Cpu U (Unit {0})
  jump_if op = do
    addr ← read_immediate16
    taken ← gets (λ s. condition_met s.f (reg_field op))
    when taken (modify (set_pc addr))
    add_cycles 10

  -- Push the program counter, and go on at `addr`.
  unfoldable pub call_to : ℕ → Cpu U (Unit {0})
  call_to addr = do pc ← gets (λ s. s.pc); push16 pc; modify (set_pc addr)

  unfoldable pub call_always : Cpu U (Unit {0})
  call_always = do addr ← read_immediate16; call_to addr; add_cycles 17

  unfoldable pub call_if : ℕ → Cpu U (Unit {0})
  call_if op = do
    addr ← read_immediate16
    taken ← gets (λ s. condition_met s.f (reg_field op))
    when taken (call_to addr)
    add_cycles (if taken then 17 else 10)

  unfoldable pub restart : ℕ → Cpu U (Unit {0})
  restart op = do call_to (u16 (bit_and op 0x38)); add_cycles 11

  -- `state->pc = Pop16(state, events)`.
  unfoldable pub return_to : Cpu U (Unit {0})
  return_to = do pc ← pop16; modify (set_pc pc)

  unfoldable pub return_always : Cpu U (Unit {0})
  return_always = do return_to; add_cycles 10

  unfoldable pub return_if : ℕ → Cpu U (Unit {0})
  return_if op = do
    taken ← gets (λ s. condition_met s.f (reg_field op))
    when taken return_to
    add_cycles (if taken then 11 else 5)
