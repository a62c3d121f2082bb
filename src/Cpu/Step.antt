-- ===== src/Cpu/Step.antt =====
-- src/z80_exec.c, lines 1015-1075 and 1521-1525: `EmulateZ80Op`, one step of the processor. The
-- loop over DD and FD takes fuel, one for each byte it looks at; `none` is a step that the fuel
-- does not reach the end of.
use z80_trace.Common.{
  ℕ, zero, suc, Bool, true, false, not, ◌&&◌, ◌||◌, Option, none, some, [], ◌==◌,
}
use z80_trace.Common.{if◌then◌else◌}
use z80_trace.Cpu.State.{StateZ80, StepResult, ok, halt, unimplemented}
use z80_trace.Cpu.Monad.{Cpu, ◌>>=◌, ◌>>◌, pure, gets}
use z80_trace.Cpu.Registers.{IndexMode, index_none, index_ix, index_iy, is_indexed}
use z80_trace.Cpu.Bus.{fetch_opcode_byte, read_immediate8, map_option}
use z80_trace.Cpu.Interrupt.{service_nmi, service_maskable_interrupt}
use z80_trace.Cpu.Cb.{execute_cb}
use z80_trace.Cpu.Ed.{execute_ed}
use z80_trace.Cpu.Base.{execute_base}

-- `op == 0xDD || op == 0xFD`, and the index register that the byte selects.
unfoldable pub is_prefix : ℕ → Bool
is_prefix op = op == 0xdd || op == 0xfd

abbrev pub prefix_index : ℕ → IndexMode
prefix_index op = if op == 0xdd then index_ix else index_iy

-- What a maskable interrupt returns.
unfoldable pub interrupt_result : Bool → StepResult
interrupt_result done = if done then ok else unimplemented

module _ {U : Type 0} where
  -- `memset(state->last_error, 0, ...)`, `events->count = 0`, `state->ei_pending = 0`.
  unfoldable pub begin_step : Cpu U (Unit {0})
  begin_step m = (
    tt,
    record m {
      state = record (m.state) { last_error = none; ei_pending = 0 };
      events = map_option (λ _. []) m.events;
    },
  )

  unfoldable pub skip_prefixes : ℕ → IndexMode → ℕ → Cpu U (Option (IndexMode × ℕ))
  skip_prefixes zero index op = pure none
  skip_prefixes (suc fuel) index op = elim (is_prefix op) [
    | true ↦ fetch_opcode_byte >>= λ next. skip_prefixes fuel (prefix_index op) next
    | false ↦ pure (some (index, op))
  ]

  unfoldable pub execute_cb_prefix : IndexMode → Cpu U StepResult
  execute_cb_prefix index =
      if is_indexed index
      then (do disp ← read_immediate8; cbop ← read_immediate8; execute_cb cbop index true disp)
      else (do cbop ← fetch_opcode_byte; execute_cb cbop index_none false 0)

  unfoldable pub execute_ed_prefix : Cpu U StepResult
  execute_ed_prefix = do edop ← fetch_opcode_byte; execute_ed edop

  -- The instruction, once its prefixes are read.
  unfoldable pub execute_opcode : IndexMode → ℕ → Cpu U StepResult
  execute_opcode index op =
      if op == 0xcb
      then execute_cb_prefix index
      else (if op == 0xed then execute_ed_prefix else execute_base op index)

  unfoldable pub run_opcode : Option (IndexMode × ℕ) → Cpu U (Option StepResult)
  run_opcode none = pure none
  run_opcode (some (index, op)) = execute_opcode index op >>= λ result. pure (some result)

  unfoldable pub execute_instruction : ℕ → Cpu U (Option StepResult)
  execute_instruction fuel = do
    op ← fetch_opcode_byte
    found ← skip_prefixes fuel index_none op
    run_opcode found

  -- `state->irq_pending && state->iff1 && !suppress_irq`.
  unfoldable pub irq_accepted : ℕ → StateZ80 U → Bool
  irq_accepted suppress_irq s = not (s.irq_pending == 0) && (not (s.iff1 == 0) && suppress_irq == 0)

  -- The state is not null and neither is its memory: for those `EmulateZ80Op` returns at once.
  unfoldable pub emulate_op : ℕ → Cpu U (Option StepResult)
  emulate_op fuel = do
    suppress_irq ← gets (λ s. s.ei_pending)
    begin_step
    nmi ← gets (λ s. not (s.nmi_pending == 0))
    irq ← gets (irq_accepted suppress_irq)
    halted ← gets (λ s. not (s.halted == 0))
    if nmi
        then (service_nmi >>= λ _. pure (some ok))
        else (if irq
            then (service_maskable_interrupt >>= λ done. pure (some (interrupt_result done)))
            else (if halted then pure (some halt) else execute_instruction fuel))
