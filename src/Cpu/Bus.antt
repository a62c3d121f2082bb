-- ===== src/Cpu/Bus.antt =====
-- src/z80_exec.c, lines 144-234, 329-345, 407-419: every access of the processor to memory and to
-- ports, with the bus events that it records, and the bookkeeping of cycles and of the stack.
use z80_trace.Common.{ℕ, ◌+◌, ◌-◌, Bool, Option, none, some, List, [], ◌∷◌, ◌++◌, ◌||◌, not}
use z80_trace.Common.{bit_and, bit_or, u8, u16, ltb, ◌==◌, if◌then◌else◌, length}
use z80_trace.Cpu.State.{StateZ80, ExecutionStats, BusEvent, BusEventKind, Bytes}
use z80_trace.Cpu.State.{fetch, read, write, io_read, io_write, max_step_events}
use z80_trace.Cpu.Monad.{Cpu, OnState, ◌>>=◌, ◌>>◌, pure, gets, modify, lift}
use z80_trace.Cpu.Registers.{IndexMode, compose16, high_byte, low_byte, get_hl}
use z80_trace.Cpu.Registers.{effective_indexed_address, get_reg8_simple, set_reg8_simple}

-- `memory[addr] = value`.
abbrev pub update : Bytes → ℕ → ℕ → Bytes
update bytes addr value x = if x == addr then value else bytes x

-- Past the 32 entries of the array an event is dropped.
unfoldable pub record_event : BusEvent → List BusEvent → List BusEvent
record_event event events =
    if ltb (length events) max_step_events then events ++ event ∷ [] else events

-- Each of the two may be null.
abbrev pub map_option : {A : Type 0} → (A → A) → Option A → Option A
map_option g none = none
map_option g (some x) = some (g x)

-- `state->io_space ? state->io_space[addr] : 0xFF`.
unfoldable pub read_space : Option Bytes → ℕ → ℕ
read_space none addr = 0xff
read_space (some bytes) addr = bytes addr

-- `stats->min_sp` becomes `sp`, if it is the first or lower.
unfoldable pub lower_min_sp : ℕ → ExecutionStats → ExecutionStats
lower_min_sp sp stats =
    if not stats.min_sp_set || ltb sp stats.min_sp
    then record stats { min_sp = sp; min_sp_set = Bool.true }
    else stats

unfoldable pub next_r : ℕ → ℕ
next_r r = u8 (bit_or (bit_and r 0x80) (bit_and (r + 1) 0x7f))

module _ {U : Type 0} where
  unfoldable pub trace_event : BusEventKind → ℕ → ℕ → Cpu U (Unit {0})
  trace_event kind addr value m = (
    tt,
    record m {
      events =
          map_option (record_event (record { kind = kind; addr = addr; value = value })) m.events;
    },
  )

  unfoldable pub add_cycles : ℕ → Cpu U (Unit {0})
  add_cycles cycles m = (
    tt,
    record m {
      stats =
          map_option (λ stats. record stats { total_tstates = (stats.total_tstates + cycles) })
            m.stats;
    },
  )

  unfoldable pub update_min_sp : Cpu U (Unit {0})
  update_min_sp m = (tt, record m { stats = map_option (lower_min_sp m.state.sp) m.stats })

  unfoldable pub increment_r : StateZ80 U → StateZ80 U
  increment_r s = record s { r = next_r s.r }

  -- `state->pc = (UINT16)(state->pc + 1)`.
  unfoldable pub advance_pc : StateZ80 U → StateZ80 U
  advance_pc s = record s { pc = u16 (s.pc + 1) }

  unfoldable pub fetch_opcode_byte : Cpu U ℕ
  fetch_opcode_byte = do
    addr ← gets (λ s. s.pc)
    value ← gets (λ s. s.memory addr)
    trace_event fetch addr value
    modify increment_r
    modify advance_pc
    pure value

  unfoldable pub read_memory : ℕ → Cpu U ℕ
  read_memory addr = do value ← gets (λ s. s.memory addr); trace_event read addr value; pure value

  unfoldable pub write_memory : ℕ → ℕ → Cpu U (Unit {0})
  write_memory addr value = do
    modify (λ s. record s { memory = update s.memory addr value })
    trace_event write addr value

  unfoldable pub read_immediate8 : Cpu U ℕ
  read_immediate8 = do pc ← gets (λ s. s.pc); value ← read_memory pc; modify advance_pc; pure value

  unfoldable pub read_immediate16 : Cpu U ℕ
  read_immediate16 = do lo ← read_immediate8; hi ← read_immediate8; pure (compose16 hi lo)

  unfoldable pub read_memory16 : ℕ → Cpu U ℕ
  read_memory16 addr = do
    lo ← read_memory addr
    hi ← read_memory (u16 (addr + 1))
    pure (compose16 hi lo)

  unfoldable pub write_memory16 : ℕ → ℕ → Cpu U (Unit {0})
  write_memory16 addr value = do
    write_memory addr (low_byte value)
    write_memory (u16 (addr + 1)) (high_byte value)

  unfoldable pub store_port : ℕ → ℕ → StateZ80 U → StateZ80 U
  store_port addr value s = record s {
    io_space = map_option (λ bytes. update bytes addr value) s.io_space;
  }

  -- The callback, where there is one, is given the value in `io_space` and may replace it.
  unfoldable pub ask_device : Option (U → ℕ → ℕ → ℕ × U) → ℕ → ℕ → OnState U ℕ
  ask_device none addr value s = (value, s)
  ask_device (some callback) addr value s =
      let (answer, user) = callback s.io_user addr value in
      (answer, store_port addr answer (record s { io_user = user }))

  unfoldable pub input_port : ℕ → OnState U ℕ
  input_port addr s = ask_device s.io_read addr (read_space s.io_space addr) s

  unfoldable pub read_port : ℕ → Cpu U ℕ
  read_port addr = do value ← lift (input_port addr); trace_event io_read addr value; pure value

  unfoldable pub tell_device : Option (U → ℕ → ℕ → U) → ℕ → ℕ → StateZ80 U → StateZ80 U
  tell_device none addr value s = s
  tell_device (some callback) addr value s = record s { io_user = callback s.io_user addr value }

  unfoldable pub write_port : ℕ → ℕ → Cpu U (Unit {0})
  write_port addr value = do
    modify (λ s. tell_device s.io_write addr value s)
    modify (store_port addr value)
    trace_event io_write addr value

  -- The address of operand 6: `(HL)`, or `(IX+d)` and `(IY+d)`.
  unfoldable pub operand_address : IndexMode → Bool → ℕ → StateZ80 U → ℕ
  operand_address index indexed_mem disp s =
      if indexed_mem then effective_indexed_address index disp s else get_hl s

  unfoldable pub read_reg8 : ℕ → IndexMode → Bool → ℕ → Cpu U ℕ
  read_reg8 reg index indexed_mem disp =
      if bit_and reg 7 == 6
      then (do addr ← gets (operand_address index indexed_mem disp); read_memory addr)
      else gets (get_reg8_simple reg index)

  unfoldable pub write_reg8 : ℕ → IndexMode → Bool → ℕ → ℕ → Cpu U (Unit {0})
  write_reg8 reg index indexed_mem disp value =
      if bit_and reg 7 == 6
      then (do addr ← gets (operand_address index indexed_mem disp); write_memory addr value)
      else modify (set_reg8_simple reg index value)

  -- `state->sp = (UINT16)(state->sp - 1)`.
  unfoldable pub decrement_sp : StateZ80 U → StateZ80 U
  decrement_sp s = record s { sp = u16 (s.sp + 65536 - 1) }

  unfoldable pub push16 : ℕ → Cpu U (Unit {0})
  push16 value = do
    modify decrement_sp
    upper ← gets (λ s. s.sp)
    write_memory upper (high_byte value)
    modify decrement_sp
    lower ← gets (λ s. s.sp)
    write_memory lower (low_byte value)
    update_min_sp

  unfoldable pub pop16 : Cpu U ℕ
  pop16 = do
    sp ← gets (λ s. s.sp)
    value ← read_memory16 sp
    modify (λ s. record s { sp = u16 (s.sp + 2) })
    pure value
