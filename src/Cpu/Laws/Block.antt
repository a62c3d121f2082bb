-- ===== src/Cpu/Laws/Block.antt =====
-- src/z80_exec.c, lines 928-946: `LDI` and `LDIR` on the machine. Copy has the copy of bytes alone.
pub mod Copy
use z80_trace.Common.{
  ℕ, zero, suc, ◌+◌, ◌-◌, ◌<◌, ◌≤◌, Bool, true, false, not, ◌&&◌, u16, test, leb, ltb, ◌==◌,
}
use z80_trace.Common.{
  if◌then◌else◌, ◌≡◌, refl, sym, ap, ◌∙◌, ◌⊎◌, inl, inr, Bool-cases, if_either, arith,
}
use z80_trace.Cpu.State.{Machine, Bytes}
use z80_trace.Cpu.Monad.{run_cpu}
use z80_trace.Cpu.Registers.{
  get_hl, get_de, get_bc, set_hl, set_de, set_bc, set_f, set_pc, compose16,
}
use z80_trace.Cpu.Bus.{update, read_memory, write_memory, trace_event, add_cycles}
use z80_trace.Cpu.Ed.Block.{move_pointer, step_pointers, finish_block, block_load}
use z80_trace.Cpu.Valid.Defs.{IsWord}
use z80_trace.Cpu.Laws.Pairs.{compose16-halves}
use Copy.{copy_up, copied, copy_up-copied}

move_pointer-IsWord : (op value : ℕ) → IsWord (move_pointer op value)
unfolding move_pointer
move_pointer-IsWord op value = if_either IsWord (test op 0x08) (omega arith) (omega arith)

module _ {U : Type 0} where
  -- The cycles and the step back leave memory and the pairs alone.
  finish-memory :
      (again : Bool) (m : Machine U) → (finish_block again m).1.state.memory ≡ m.state.memory
  unfolding finish_block run_cpu add_cycles set_pc
  finish-memory true m = refl
  finish-memory false m = refl

  finish-hl :
      (again : Bool) (m : Machine U) → get_hl (finish_block again m).1.state ≡ get_hl m.state
  unfolding finish_block run_cpu add_cycles set_pc get_hl
  finish-hl true m = refl
  finish-hl false m = refl

  finish-de :
      (again : Bool) (m : Machine U) → get_de (finish_block again m).1.state ≡ get_de m.state
  unfolding finish_block run_cpu add_cycles set_pc get_de
  finish-de true m = refl
  finish-de false m = refl

  finish-bc :
      (again : Bool) (m : Machine U) → get_bc (finish_block again m).1.state ≡ get_bc m.state
  unfolding finish_block run_cpu add_cycles set_pc get_bc
  finish-bc true m = refl
  finish-bc false m = refl

  finish-pc :
      (again : Bool) (m : Machine U)
      → (finish_block again m).1.state.pc
        ≡ (if again then u16 (m.state.pc + 65536 - 2) else m.state.pc)
  unfolding finish_block run_cpu add_cycles set_pc
  finish-pc true m = refl
  finish-pc false m = refl

  block_load-memory :
      (op : ℕ) (m : Machine U)
      → (block_load op m).1.state.memory
        ≡ update m.state.memory (get_de m.state) (m.state.memory (get_hl m.state))
  unfolding block_load run_cpu read_memory write_memory trace_event step_pointers set_hl set_de
      set_bc set_f
  block_load-memory op m = finish-memory _ _

  block_load-hl :
      (op : ℕ) (m : Machine U) → get_hl (block_load op m).1.state ≡ move_pointer op (get_hl m.state)
  unfolding block_load run_cpu read_memory write_memory trace_event step_pointers set_hl set_de
      set_bc set_f get_hl
  block_load-hl op m = finish-hl _ _ ∙ compose16-halves _ (move_pointer-IsWord op _)

  block_load-de :
      (op : ℕ) (m : Machine U) → get_de (block_load op m).1.state ≡ move_pointer op (get_de m.state)
  unfolding block_load run_cpu read_memory write_memory trace_event step_pointers set_hl set_de
      set_bc set_f get_de
  block_load-de op m = finish-de _ _ ∙ compose16-halves _ (move_pointer-IsWord op _)

  block_load-bc :
      (op : ℕ) (m : Machine U) → get_bc (block_load op m).1.state ≡ u16 (get_bc m.state + 65536 - 1)
  unfolding block_load run_cpu read_memory write_memory trace_event step_pointers set_hl set_de
      set_bc set_f get_bc
  block_load-bc op m = finish-bc _ _ ∙ compose16-halves _ (omega arith)

  block_load-pc :
      (op : ℕ) (m : Machine U)
      → (block_load op m).1.state.pc ≡ (
          if test op 0x10 && not (u16 (get_bc m.state + 65536 - 1) == 0)
          then u16 (m.state.pc + 65536 - 2)
          else m.state.pc)
  unfolding block_load run_cpu read_memory write_memory trace_event step_pointers set_hl set_de
      set_bc set_f get_bc
  block_load-pc op m =
      finish-pc _ _
      ∙ ap
          (λ bc. if test op 0x10 && not (bc == 0) then u16 (m.state.pc + 65536 - 2) else m.state.pc)
          (compose16-halves (u16 (get_bc m.state + 65536 - 1)) (omega arith))

  -- The body of the instruction, `n` times.
  unfoldable pub block_loads : ℕ → ℕ → Machine U → Machine U
  block_loads op zero m = m
  block_loads op (suc n) m = block_loads op n (block_load op m).1

  loads-copy_up :
      (op n : ℕ) (m : Machine U)
      → test op 0x08 ≡ false
      → (block_loads op n m).state.memory
        ≡ copy_up n (get_hl m.state) (get_de m.state) m.state.memory
  unfolding block_loads copy_up move_pointer
  loads-copy_up op zero m up = refl
  loads-copy_up op (suc n) m up =
      loads-copy_up op n (block_load op m).1 up
      ∙ rw (block_load-memory op m, block_load-hl op m, block_load-de op m, up) refl

  loads-bc :
      (op n : ℕ) (m : Machine U)
      → n ≤ get_bc m.state
      → IsWord (get_bc m.state)
      → get_bc (block_loads op n m).state ≡ get_bc m.state - n
  unfolding block_loads
  loads-bc op zero m h hb = omega arith
  loads-bc op (suc n) m h hb =
      let e : get_bc (block_load op m).1.state ≡ get_bc m.state - 1 =
        rw (block_load-bc op m) (omega arith) in
      loads-bc op n (block_load op m).1 (rw e (omega arith)) (rw e (omega arith))
      ∙ rw e (omega arith)

  -- `LDI`, or the body of `LDIR`, done `n` times moves a block of `n` bytes from HL to DE: each byte
  -- of the target is the byte of the source as it was, every other byte is unchanged, and BC is `n`
  -- lower. The pointers go up, neither block reaches beyond address 65535, `n` is at most BC, and
  -- the target does not begin inside the source behind its first byte.
  pub block_loads-copied :
      (op n : ℕ) (m : Machine U) (x : ℕ)
      → test op 0x08 ≡ false
      → get_hl m.state + n ≤ 65536
      → get_de m.state + n ≤ 65536
      → (get_de m.state ≤ get_hl m.state) ⊎ (get_hl m.state + n ≤ get_de m.state)
      → n ≤ get_bc m.state
      → ((block_loads op n m).state.memory x
          ≡ copied n (get_hl m.state) (get_de m.state) m.state.memory x)
        × (get_bc (block_loads op n m).state ≡ get_bc m.state - n)
  unfolding get_bc compose16
  block_loads-copied op n m x up hf ht apart hn = (
    ap (λ g. g x) (loads-copy_up op n m up)
        ∙ copy_up-copied n (get_hl m.state) (get_de m.state) m.state.memory x hf ht apart,
    loads-bc op n m hn (omega arith),
  )

  -- A block load that repeats steps back over its own two bytes while BC, which it lowers, is not 0;
  -- one that does not repeat never steps back.
  pub block_load-repeats :
      (op : ℕ) (m : Machine U)
      → ((block_load op m).1.state.pc ≡ (
          if test op 0x10 && not (get_bc (block_load op m).1.state == 0)
          then u16 (m.state.pc + 65536 - 2)
          else m.state.pc))
        × (get_bc (block_load op m).1.state ≡ u16 (get_bc m.state + 65536 - 1))
  block_load-repeats op m = (rw (block_load-bc op m) (block_load-pc op m), block_load-bc op m)
