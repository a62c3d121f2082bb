-- ===== src/Cpu/Ed/Block.antt =====
-- src/z80_exec.c, lines 928-1008: the block instructions. In each opcode 0x08 says that the
-- pointers go down, and 0x10 that the instruction repeats: it then goes back to its own first byte.
use z80_trace.Common.{ℕ, ◌+◌, ◌-◌, Bool, not, ◌&&◌, bit_and, bit_or, bit_xor, u8, u16, test}
use z80_trace.Common.{◌==◌, if◌then◌else◌}
use z80_trace.Cpu.State.{StateZ80}
use z80_trace.Cpu.Monad.{Cpu, ◌>>=◌, ◌>>◌, gets, modify, when}
use z80_trace.Cpu.Registers.{get_bc, set_bc, get_de, set_de, get_hl, set_hl, set_f, set_pc}
use z80_trace.Cpu.Flags.{or_if, flag_s, flag_z, flag_h, flag_pv, flag_n, flag_c}
use z80_trace.Cpu.Bus.{read_port, write_port, read_memory, write_memory, add_cycles}

-- `(UINT16)(value + (decrement ? -1 : 1))`.
unfoldable pub move_pointer : ℕ → ℕ → ℕ
move_pointer op value = if test op 0x08 then u16 (value + 65536 - 1) else u16 (value + 1)

-- `LDI` and its kin: what the flags are, from those before, the accumulator, the byte moved and the
-- count that is left.
unfoldable pub load_flags : ℕ → ℕ → ℕ → ℕ → ℕ
load_flags f a mem bc =
    bit_or (u8 (bit_or (bit_and f flag_c) (if not (bc == 0) then flag_pv else 0)))
      (u8 (bit_and (a + mem) 0x28))

-- `CPI` and its kin.
unfoldable pub search_flags : ℕ → ℕ → ℕ → ℕ → ℕ
search_flags f a mem bc =
    let result = u8 (a + 256 - mem) in
    bit_or
      (or_if (not (bc == 0)) flag_pv (
        or_if (test (bit_xor (bit_xor a mem) result) 0x10) flag_h (
          or_if (result == 0) flag_z
            (u8 (bit_or (bit_or (bit_and f flag_c) flag_n) (bit_and result flag_s))))))
      (u8 (bit_and result 0x28))

module _ {U : Type 0} where
  -- The pointers and the count of `LDI` and its kin, after the byte is written.
  unfoldable pub step_pointers : ℕ → StateZ80 U → StateZ80 U
  step_pointers op s =
      let s₁ = set_hl (move_pointer op (get_hl s)) s in
      let s₂ = set_de (move_pointer op (get_de s₁)) s₁ in set_bc (u16 (get_bc s₂ + 65536 - 1)) s₂

  -- The cycles, and the step back of an instruction that repeats.
  unfoldable pub finish_block : Bool → Cpu U (Unit {0})
  finish_block again = do
    add_cycles (if again then 21 else 16)
    when again (modify (λ s. set_pc (u16 (s.pc + 65536 - 2)) s))

  unfoldable pub block_load : ℕ → Cpu U (Unit {0})
  block_load op = do
    from ← gets get_hl
    mem ← read_memory from
    to ← gets get_de
    write_memory to mem
    modify (step_pointers op)
    modify (λ s. set_f (load_flags s.f s.a mem (get_bc s)) s)
    bc ← gets get_bc
    finish_block (test op 0x10 && not (bc == 0))

  unfoldable pub block_compare : ℕ → Cpu U (Unit {0})
  block_compare op = do
    from ← gets get_hl
    mem ← read_memory from
    result ← gets (λ s. u8 (s.a + 256 - mem))
    bc ← gets (λ s. u16 (get_bc s + 65536 - 1))
    modify (set_bc bc)
    modify (λ s. set_hl (move_pointer op (get_hl s)) s)
    modify (λ s. set_f (search_flags s.f s.a mem bc) s)
    finish_block (test op 0x10 && (not (bc == 0) && not (result == 0)))

  -- `B` goes down, `HL` moves, and the flags say whether `B` is used up.
  unfoldable pub step_io : ℕ → StateZ80 U → StateZ80 U
  step_io op s =
      let s₁ = record s { b = u8 (s.b + 256 - 1) } in
      let s₂ = set_hl (move_pointer op (get_hl s₁)) s₁ in
      set_f (u8 (bit_or (if s₂.b == 0 then flag_z else 0) flag_n)) s₂

  unfoldable pub block_input : ℕ → Cpu U (Unit {0})
  block_input op = do
    port ← gets get_bc
    value ← read_port port
    to ← gets get_hl
    write_memory to value
    modify (step_io op)
    b ← gets (λ s. s.b)
    finish_block (test op 0x10 && not (b == 0))

  unfoldable pub block_output : ℕ → Cpu U (Unit {0})
  block_output op = do
    from ← gets get_hl
    value ← read_memory from
    port ← gets get_bc
    write_port port value
    modify (step_io op)
    b ← gets (λ s. s.b)
    finish_block (test op 0x10 && not (b == 0))
