-- ===== src/Cpu/Valid/Bus.antt =====
-- The accesses to memory and ports keep the machine well formed.
use z80_trace.Common.{ℕ, ◌+◌, ◌≤◌, Option, none, some, List, [], ◌∷◌, ◌++◌, Bool, arith, length}
use z80_trace.Common.{if_either, ◌≡◌, ◌==◌}
use z80_trace.Cpu.State.{StateZ80, BusEvent, BusEventKind, Bytes, fetch, read, write, io_read}
use z80_trace.Cpu.State.{io_write}
use z80_trace.Cpu.Registers.{IndexMode}
use z80_trace.Cpu.Bus.{update, map_option, record_event, next_r, trace_event, add_cycles}
use z80_trace.Cpu.Bus.{update_min_sp, increment_r, advance_pc, fetch_opcode_byte, read_memory}
use z80_trace.Cpu.Bus.{
  write_memory, read_immediate8, read_immediate16, read_memory16, write_memory16,
}
use z80_trace.Cpu.Bus.{
  store_port, input_port, read_port, write_port, read_space, ask_device, tell_device,
}
use z80_trace.Cpu.Bus.{read_reg8, write_reg8, decrement_sp, push16, pop16}
use z80_trace.Cpu.Valid.Defs.{IsByte, IsWord, IsSpace, IsState, AreBytes, AreEvents, Gives}
use z80_trace.Cpu.Valid.Defs.{Any, IsReader}
use z80_trace.Cpu.Valid.Rules.{Gives-pure, Gives-gets, Gives-modify, Gives-lift, Gives-if, ◌▶◌, ◌▷◌}
use z80_trace.Cpu.Valid.Registers.{compose16-IsWord, high_byte-IsByte, low_byte-IsByte}
use z80_trace.Cpu.Valid.Registers.{get_reg8_simple-IsByte, set_reg8_simple-IsState, set_sp-IsState}

length-snoc : {A : Type 0} (xs : List A) (x : A) → length (xs ++ x ∷ []) ≡ length xs + 1
length-snoc [] x = omega arith
length-snoc (y ∷ xs) x = omega (arith, length-snoc xs x)

record_event-le :
    (e : BusEvent) (es : List BusEvent) → length es ≤ 32 → length (record_event e es) ≤ 32
unfolding record_event
record_event-le e es h = ground (arith, length-snoc es e)

update-AreBytes :
    (bytes : Bytes) (addr value : ℕ)
    → AreBytes bytes
    → IsByte value
    → AreBytes (update bytes addr value)
update-AreBytes bytes addr value hb hv x = if_either IsByte (x == addr) hv (hb x)

map_events :
    (e : BusEvent) (events : Option (List BusEvent))
    → AreEvents events
    → AreEvents (map_option (record_event e) events)
map_events e none h = tt
map_events e (some es) h = record_event-le e es h

map_option-IsSpace :
    (addr value : ℕ) (space : Option Bytes)
    → IsByte value
    → IsSpace space
    → IsSpace (map_option (λ bytes. update bytes addr value) space)
map_option-IsSpace addr value none hv h = tt
map_option-IsSpace addr value (some bytes) hv h = update-AreBytes bytes addr value h hv

read_space-IsByte :
    (space : Option Bytes) (addr : ℕ) → IsSpace space → IsByte (read_space space addr)
unfolding read_space
read_space-IsByte none addr h = omega arith
read_space-IsByte (some bytes) addr h = h addr

module _ {U : Type 0} where
  pub trace_event-Gives :
      (kind : BusEventKind) (addr value : ℕ) → Gives {U = U} Any (trace_event kind addr value)
  unfolding trace_event
  trace_event-Gives kind addr value = record {
    run = λ m v.
        (tt, record { state_ok = v.state_ok; events_ok = map_events _ m.events v.events_ok });
  }

  pub add_cycles-Gives : (cycles : ℕ) → Gives {U = U} Any (add_cycles cycles)
  unfolding add_cycles
  add_cycles-Gives cycles = record {
    run = λ m v. (tt, record { state_ok = v.state_ok; events_ok = v.events_ok });
  }

  pub update_min_sp-Gives : Gives {U = U} Any update_min_sp
  unfolding update_min_sp
  update_min_sp-Gives = record {
    run = λ m v. (tt, record { state_ok = v.state_ok; events_ok = v.events_ok });
  }

  advance_pc-IsState : (s : StateZ80 U) → IsState s → IsState (advance_pc s)
  unfolding advance_pc
  advance_pc-IsState s v = ground arith

  increment_r-IsState : (s : StateZ80 U) → IsState s → IsState (increment_r s)
  unfolding increment_r next_r
  increment_r-IsState s v = ground arith

  decrement_sp-IsState : (s : StateZ80 U) → IsState s → IsState (decrement_sp s)
  unfolding decrement_sp
  decrement_sp-IsState s v = ground arith

  set_memory-IsState :
      (addr value : ℕ)
      → IsByte value
      → (s : StateZ80 U) → IsState s
      → IsState (record s { memory = update s.memory addr value })
  set_memory-IsState addr value hv s v =
      let hm = update-AreBytes s.memory addr value v.memory_bytes hv in ground arith

  pub fetch_opcode_byte-Gives : Gives {U = U} IsByte fetch_opcode_byte
  unfolding fetch_opcode_byte
  fetch_opcode_byte-Gives = Gives-gets {P = IsWord} _ (λ s v. v.pc_word) ▶ λ addr h.
      Gives-gets _ (λ s v. v.memory_bytes addr) ▶ λ value hv.
      trace_event-Gives fetch addr value
      ▷ Gives-modify increment_r-IsState
      ▷ Gives-modify advance_pc-IsState
      ▷ Gives-pure value hv

  pub read_memory-Gives : (addr : ℕ) → Gives {U = U} IsByte (read_memory addr)
  unfolding read_memory
  read_memory-Gives addr = Gives-gets _ (λ s v. v.memory_bytes addr) ▶ λ value hv.
      trace_event-Gives read addr value ▷ Gives-pure value hv

  pub write_memory-Gives :
      (addr value : ℕ) → IsByte value → Gives {U = U} Any (write_memory addr value)
  unfolding write_memory
  write_memory-Gives addr value hv =
      Gives-modify (set_memory-IsState addr value hv) ▷ trace_event-Gives write addr value

  pub read_immediate8-Gives : Gives {U = U} IsByte read_immediate8
  unfolding read_immediate8
  read_immediate8-Gives = Gives-gets {P = IsWord} _ (λ s v. v.pc_word) ▶ λ pc h.
      read_memory-Gives pc ▶ λ value hv. Gives-modify advance_pc-IsState ▷ Gives-pure value hv

  pub read_immediate16-Gives : Gives {U = U} IsWord read_immediate16
  unfolding read_immediate16
  read_immediate16-Gives = read_immediate8-Gives ▶ λ lo hl.
      read_immediate8-Gives ▶ λ hi hh. Gives-pure _ (compose16-IsWord hi lo)

  pub read_memory16-Gives : (addr : ℕ) → Gives {U = U} IsWord (read_memory16 addr)
  unfolding read_memory16
  read_memory16-Gives addr = read_memory-Gives addr ▶ λ lo hl.
      read_memory-Gives _ ▶ λ hi hh. Gives-pure _ (compose16-IsWord hi lo)

  pub write_memory16-Gives : (addr value : ℕ) → Gives {U = U} Any (write_memory16 addr value)
  unfolding write_memory16
  write_memory16-Gives addr value =
      write_memory-Gives _ _ (low_byte-IsByte value)
      ▷ write_memory-Gives _ _ (high_byte-IsByte value)

  store_port-IsState :
      (addr value : ℕ)
      → IsByte value
      → (s : StateZ80 U) → IsState s
      → IsState (store_port addr value s)
  unfolding store_port
  store_port-IsState addr value hv s v =
      let hs = map_option-IsSpace addr value s.io_space hv v.io_space_bytes in ground arith

  pub write_reg8-Gives :
      (reg : ℕ) (index : IndexMode) (indexed : Bool) (disp value : ℕ)
      → IsByte value
      → Gives {U = U} Any (write_reg8 reg index indexed disp value)
  unfolding write_reg8
  write_reg8-Gives reg index indexed disp value h =
      Gives-if _ (Gives-gets {P = Any} _ (λ s v. tt) ▶ λ addr ha. write_memory-Gives addr value h)
        (Gives-modify (λ s v. set_reg8_simple-IsState s v reg index value h))

  pub read_reg8-Gives :
      (reg : ℕ) (index : IndexMode) (indexed : Bool) (disp : ℕ)
      → Gives {U = U} IsByte (read_reg8 reg index indexed disp)
  unfolding read_reg8
  read_reg8-Gives reg index indexed disp =
      Gives-if _ (Gives-gets {P = Any} _ (λ s v. tt) ▶ λ addr ha. read_memory-Gives addr)
        (Gives-gets _ (λ s v. get_reg8_simple-IsByte s v reg index))

  pub push16-Gives : (value : ℕ) → Gives {U = U} Any (push16 value)
  unfolding push16
  push16-Gives value =
      Gives-modify decrement_sp-IsState ▷ Gives-gets {P = Any} _ (λ s v. tt) ▶ λ upper hu.
      write_memory-Gives upper _ (high_byte-IsByte value)
      ▷ Gives-modify decrement_sp-IsState
      ▷ Gives-gets {P = Any} _ (λ s v. tt)
      ▶ λ lower hl. write_memory-Gives lower _ (low_byte-IsByte value) ▷ update_min_sp-Gives

  pub pop16-Gives : Gives {U = U} IsWord pop16
  unfolding pop16
  pop16-Gives = Gives-gets {P = Any} _ (λ s v. tt) ▶ λ sp h. read_memory16-Gives sp ▶ λ value hv.
      Gives-modify (λ s v. set_sp-IsState s v _ (omega arith)) ▷ Gives-pure value hv

  tell_device-IsState :
      (device : Option (U → ℕ → ℕ → U)) (addr value : ℕ) (s : StateZ80 U)
      → IsState s
      → IsState (tell_device device addr value s)
  unfolding tell_device
  tell_device-IsState none addr value s v = v
  tell_device-IsState (some callback) addr value s v = ground arith

  pub write_port-Gives : (addr value : ℕ) → IsByte value → Gives {U = U} Any (write_port addr value)
  unfolding write_port
  write_port-Gives addr value h =
      Gives-modify (λ s v. tell_device-IsState s.io_write addr value s v)
      ▷ Gives-modify (store_port-IsState addr value h)
      ▷ trace_event-Gives io_write addr value

  set_user-IsState : (user : U) (s : StateZ80 U) → IsState s → IsState (record s { io_user = user })
  set_user-IsState user s v = ground arith

  ask_device-IsState :
      (device : Option (U → ℕ → ℕ → ℕ × U)) (addr value : ℕ) (s : StateZ80 U)
      → IsReader device
      → IsByte value
      → IsState s
      → IsByte (ask_device device addr value s).0 × IsState (ask_device device addr value s).1
  unfolding ask_device
  ask_device-IsState none addr value s hd hv v = (hv, v)
  ask_device-IsState (some callback) addr value s hd hv v = (
    hd s.io_user addr value,
    store_port-IsState addr _ (hd s.io_user addr value) _ (set_user-IsState _ s v),
  )

  input_port-IsState :
      (addr : ℕ) (s : StateZ80 U)
      → IsState s
      → IsByte (input_port addr s).0 × IsState (input_port addr s).1
  unfolding input_port
  input_port-IsState addr s v =
      ask_device-IsState s.io_read addr _ s v.io_read_bytes
        (read_space-IsByte s.io_space addr v.io_space_bytes) v

  pub read_port-Gives : (addr : ℕ) → Gives {U = U} IsByte (read_port addr)
  unfolding read_port
  read_port-Gives addr = Gives-lift _ (input_port-IsState addr) ▶ λ value h.
      trace_event-Gives io_read addr value ▷ Gives-pure value h
