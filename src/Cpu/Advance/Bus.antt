-- ===== src/Cpu/Advance/Bus.antt =====
-- The accesses to memory and ports, and the register writes.
use z80_trace.Common.{ℕ, arith, Bool, Option, none, some, ◌≡◌, refl}
use z80_trace.Cpu.State.{StateZ80, BusEventKind}
use z80_trace.Cpu.Registers.{IndexMode}
use z80_trace.Cpu.Bus.{trace_event, add_cycles, update_min_sp, increment_r, advance_pc}
use z80_trace.Cpu.Bus.{
  fetch_opcode_byte, read_memory, write_memory, read_immediate8, read_immediate16,
}
use z80_trace.Cpu.Bus.{read_memory16, write_memory16, store_port, ask_device, input_port, read_port}
use z80_trace.Cpu.Bus.{tell_device, write_port, read_reg8, write_reg8, decrement_sp}
use z80_trace.Cpu.Bus.{push16, pop16}
use z80_trace.Cpu.Advance.Registers.{set_reg8_simple-pc}
use z80_trace.Cpu.Monad.{modify}
use z80_trace.Cpu.Advance.Rules.{Advances, Advances-pure, Advances-gets, Advances-modify}
use z80_trace.Cpu.Advance.Rules.{Advances-lift, Advances-either, ◌⊳◌, ◌⊳⊳◌}

module _ {U : Type 0} where
  pub trace_event-Advances :
      (kind : BusEventKind) (addr value : ℕ) → Advances {U = U} 0 (trace_event kind addr value)
  unfolding trace_event
  trace_event-Advances kind addr value = record { run = λ m h. omega arith }

  pub add_cycles-Advances : (cycles : ℕ) → Advances {U = U} 0 (add_cycles cycles)
  unfolding add_cycles
  add_cycles-Advances cycles = record { run = λ m h. omega arith }

  update_min_sp-Advances : Advances {U = U} 0 update_min_sp
  unfolding update_min_sp
  update_min_sp-Advances = record { run = λ m h. omega arith }

  advance_pc-Advances : Advances {U = U} 1 (modify advance_pc)
  unfolding advance_pc modify
  advance_pc-Advances = record { run = λ m h. refl }

  pub fetch_opcode_byte-Advances : Advances {U = U} 1 fetch_opcode_byte
  unfolding fetch_opcode_byte increment_r
  fetch_opcode_byte-Advances = Advances-gets _ ⊳ λ addr. Advances-gets _ ⊳ λ value.
      trace_event-Advances _ addr value
      ⊳⊳ Advances-modify _ (λ s. refl)
      ⊳⊳ advance_pc-Advances
      ⊳⊳ Advances-pure value

  pub read_memory-Advances : (addr : ℕ) → Advances {U = U} 0 (read_memory addr)
  unfolding read_memory
  read_memory-Advances addr =
      Advances-gets _ ⊳ λ value. trace_event-Advances _ addr value ⊳⊳ Advances-pure value

  pub write_memory-Advances : (addr value : ℕ) → Advances {U = U} 0 (write_memory addr value)
  unfolding write_memory
  write_memory-Advances addr value =
      Advances-modify _ (λ s. refl) ⊳⊳ trace_event-Advances _ addr value

  pub read_immediate8-Advances : Advances {U = U} 1 read_immediate8
  unfolding read_immediate8
  read_immediate8-Advances = Advances-gets _ ⊳ λ pc.
      read_memory-Advances pc ⊳ λ value. advance_pc-Advances ⊳⊳ Advances-pure value

  pub read_immediate16-Advances : Advances {U = U} 2 read_immediate16
  unfolding read_immediate16
  read_immediate16-Advances =
      read_immediate8-Advances ⊳ λ lo. read_immediate8-Advances ⊳ λ hi. Advances-pure _

  pub read_memory16-Advances : (addr : ℕ) → Advances {U = U} 0 (read_memory16 addr)
  unfolding read_memory16
  read_memory16-Advances addr =
      read_memory-Advances addr ⊳ λ lo. read_memory-Advances _ ⊳ λ hi. Advances-pure _

  pub write_memory16-Advances : (addr value : ℕ) → Advances {U = U} 0 (write_memory16 addr value)
  unfolding write_memory16
  write_memory16-Advances addr value = write_memory-Advances _ _ ⊳⊳ write_memory-Advances _ _

  pub write_reg8-Advances :
      (reg : ℕ) (index : IndexMode) (indexed : Bool) (disp value : ℕ)
      → Advances {U = U} 0 (write_reg8 reg index indexed disp value)
  unfolding write_reg8
  write_reg8-Advances reg index indexed disp value =
      Advances-either _ (Advances-gets _ ⊳ λ addr. write_memory-Advances addr value)
        (Advances-modify _ (set_reg8_simple-pc reg index value))

  pub read_reg8-Advances :
      (reg : ℕ) (index : IndexMode) (indexed : Bool) (disp : ℕ)
      → Advances {U = U} 0 (read_reg8 reg index indexed disp)
  unfolding read_reg8
  read_reg8-Advances reg index indexed disp =
      Advances-either _ (Advances-gets _ ⊳ λ addr. read_memory-Advances addr) (Advances-gets _)

  pub push16-Advances : (value : ℕ) → Advances {U = U} 0 (push16 value)
  unfolding push16 decrement_sp
  push16-Advances value = Advances-modify _ (λ s. refl) ⊳⊳ Advances-gets _ ⊳ λ upper.
      write_memory-Advances upper _ ⊳⊳ Advances-modify _ (λ s. refl) ⊳⊳ Advances-gets _ ⊳ λ lower.
      write_memory-Advances lower _ ⊳⊳ update_min_sp-Advances

  pub pop16-Advances : Advances {U = U} 0 pop16
  unfolding pop16
  pop16-Advances = Advances-gets _ ⊳ λ sp.
      read_memory16-Advances sp ⊳ λ value. Advances-modify _ (λ s. refl) ⊳⊳ Advances-pure value

  tell_device-pc :
      (device : Option (U → ℕ → ℕ → U)) (addr value : ℕ) (s : StateZ80 U)
      → (tell_device device addr value s).pc ≡ s.pc
  unfolding tell_device
  tell_device-pc none addr value s = refl
  tell_device-pc (some callback) addr value s = refl

  pub write_port-Advances : (addr value : ℕ) → Advances {U = U} 0 (write_port addr value)
  unfolding write_port store_port
  write_port-Advances addr value =
      Advances-modify _ (λ s. tell_device-pc s.io_write addr value s)
      ⊳⊳ Advances-modify _ (λ s. refl)
      ⊳⊳ trace_event-Advances _ addr value

  ask_device-pc :
      (device : Option (U → ℕ → ℕ → ℕ × U)) (addr value : ℕ) (s : StateZ80 U)
      → (ask_device device addr value s).1.pc ≡ s.pc
  unfolding ask_device store_port
  ask_device-pc none addr value s = refl
  ask_device-pc (some callback) addr value s = refl

  pub read_port-Advances : (addr : ℕ) → Advances {U = U} 0 (read_port addr)
  unfolding read_port input_port
  read_port-Advances addr = Advances-lift _ (λ s. ask_device-pc s.io_read addr _ s) ⊳ λ value.
      trace_event-Advances _ addr value ⊳⊳ Advances-pure value
