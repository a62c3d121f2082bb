-- ===== src/Cpu/Advance/Load.antt =====
-- The loads, exchanges, pushes and pops, by the bytes that stand behind their opcode.
use z80_trace.Common.{ℕ, arith, Bool, refl, if◌then◌else◌, ◌+◌, ◌==◌, ◌||◌, ◌&&◌, bit_and}
use z80_trace.Cpu.State.{StateZ80}
use z80_trace.Cpu.Registers.{IndexMode, is_indexed, set_a}
use z80_trace.Cpu.Base.Load.{memory_operand, displacement, ld_pair_imm, ld_reg_imm, store_a_at}
use z80_trace.Cpu.Base.Load.{load_a_at, store_index_at_nn, load_index_at_nn, store_a_at_nn}
use z80_trace.Cpu.Base.Load.{load_a_at_nn, ld_memory_imm, input_a, output_a, exchange_stack_top}
use z80_trace.Cpu.Base.Load.{ld_reg_reg, pop_pair, push_pair, reg_field}
use z80_trace.Cpu.Advance.Rules.{
  Advances, Advances-by, Advances-pure, Advances-gets, Advances-modify,
}
use z80_trace.Cpu.Advance.Rules.{Advances-if, ◌⊳◌, ◌⊳⊳◌}
use z80_trace.Cpu.Advance.Registers.{set_rp-pc, set_reg8_simple-pc, set_index_value-pc, set_rp2-pc}
use z80_trace.Cpu.Advance.Bus.{read_memory-Advances, write_memory-Advances}
use z80_trace.Cpu.Advance.Bus.{read_immediate8-Advances, read_immediate16-Advances}
use z80_trace.Cpu.Advance.Bus.{read_memory16-Advances, write_memory16-Advances}
use z80_trace.Cpu.Advance.Bus.{read_port-Advances, write_port-Advances, read_reg8-Advances}
use z80_trace.Cpu.Advance.Bus.{write_reg8-Advances, push16-Advances, pop16-Advances}
use z80_trace.Cpu.Advance.Bus.{add_cycles-Advances}

-- The displacement of a memory operand behind an index prefix.
abbrev pub disp_bytes : Bool → ℕ
disp_bytes indexed = if indexed then 1 else 0

module _ {U : Type 0} where
  pub memory_operand-Advances :
      (index : IndexMode) → Advances {U = U} (disp_bytes (is_indexed index)) (memory_operand index)
  unfolding memory_operand
  memory_operand-Advances index =
      Advances-if (is_indexed index) (read_immediate8-Advances ⊳ λ disp. Advances-gets _)
        (Advances-gets _)

  pub displacement-Advances :
      (indexed : Bool) → Advances {U = U} (disp_bytes indexed) (displacement indexed)
  unfolding displacement
  displacement-Advances indexed = Advances-if indexed read_immediate8-Advances (Advances-pure 0)

  pub ld_pair_imm-Advances :
      (op : ℕ) (index : IndexMode) → Advances {U = U} 2 (ld_pair_imm op index)
  unfolding ld_pair_imm
  ld_pair_imm-Advances op index = read_immediate16-Advances ⊳ λ value.
      Advances-modify _ (λ s. set_rp-pc _ _ value s) ⊳⊳ add_cycles-Advances 10

  pub ld_reg_imm-Advances : (op : ℕ) (index : IndexMode) → Advances {U = U} 1 (ld_reg_imm op index)
  unfolding ld_reg_imm
  ld_reg_imm-Advances op index = read_immediate8-Advances ⊳ λ imm.
      Advances-modify _ (λ s. set_reg8_simple-pc _ _ imm s) ⊳⊳ add_cycles-Advances _

  pub store_a_at-Advances : (pair : StateZ80 U → ℕ) → Advances 0 (store_a_at pair)
  unfolding store_a_at
  store_a_at-Advances pair = Advances-gets _ ⊳ λ addr.
      Advances-gets _ ⊳ λ a. write_memory-Advances addr a ⊳⊳ add_cycles-Advances 7

  pub load_a_at-Advances : (pair : StateZ80 U → ℕ) → Advances 0 (load_a_at pair)
  unfolding load_a_at set_a
  load_a_at-Advances pair = Advances-gets _ ⊳ λ addr.
      read_memory-Advances addr ⊳ λ value. Advances-modify _ (λ s. refl) ⊳⊳ add_cycles-Advances 7

  pub store_index_at_nn-Advances :
      (index : IndexMode) → Advances {U = U} 2 (store_index_at_nn index)
  unfolding store_index_at_nn
  store_index_at_nn-Advances index = read_immediate16-Advances ⊳ λ addr.
      Advances-gets _ ⊳ λ value. write_memory16-Advances addr value ⊳⊳ add_cycles-Advances _

  pub load_index_at_nn-Advances : (index : IndexMode) → Advances {U = U} 2 (load_index_at_nn index)
  unfolding load_index_at_nn
  load_index_at_nn-Advances index = read_immediate16-Advances ⊳ λ addr.
      read_memory16-Advances addr ⊳ λ value.
      Advances-modify _ (λ s. set_index_value-pc index value s) ⊳⊳ add_cycles-Advances _

  pub store_a_at_nn-Advances : Advances {U = U} 2 store_a_at_nn
  unfolding store_a_at_nn
  store_a_at_nn-Advances = read_immediate16-Advances ⊳ λ addr.
      Advances-gets _ ⊳ λ a. write_memory-Advances addr a ⊳⊳ add_cycles-Advances 13

  pub load_a_at_nn-Advances : Advances {U = U} 2 load_a_at_nn
  unfolding load_a_at_nn set_a
  load_a_at_nn-Advances = read_immediate16-Advances ⊳ λ addr.
      read_memory-Advances addr ⊳ λ value. Advances-modify _ (λ s. refl) ⊳⊳ add_cycles-Advances 13

  pub ld_memory_imm-Advances :
      (index : IndexMode)
      → Advances {U = U} (disp_bytes (is_indexed index) + 1) (ld_memory_imm index)
  unfolding ld_memory_imm
  ld_memory_imm-Advances index = memory_operand-Advances index ⊳ λ addr.
      read_immediate8-Advances ⊳ λ value. write_memory-Advances addr value ⊳⊳ add_cycles-Advances _

  pub input_a-Advances : Advances {U = U} 1 input_a
  unfolding input_a set_a
  input_a-Advances = read_immediate8-Advances ⊳ λ port. Advances-gets _ ⊳ λ addr.
      read_port-Advances addr ⊳ λ value. Advances-modify _ (λ s. refl) ⊳⊳ add_cycles-Advances 11

  pub output_a-Advances : Advances {U = U} 1 output_a
  unfolding output_a
  output_a-Advances = read_immediate8-Advances ⊳ λ port. Advances-gets _ ⊳ λ addr.
      Advances-gets _ ⊳ λ value. write_port-Advances addr value ⊳⊳ add_cycles-Advances 11

  pub exchange_stack_top-Advances :
      (index : IndexMode) → Advances {U = U} 0 (exchange_stack_top index)
  unfolding exchange_stack_top
  exchange_stack_top-Advances index = Advances-gets _ ⊳ λ sp. read_memory16-Advances sp ⊳ λ value.
      Advances-gets _ ⊳ λ old.
      write_memory16-Advances sp old
      ⊳⊳ Advances-modify _ (λ s. set_index_value-pc index value s)
      ⊳⊳ add_cycles-Advances _

  pub ld_reg_reg-Advances :
      (op : ℕ) (index : IndexMode)
      → Advances {U = U}
          (disp_bytes (is_indexed index && (reg_field op == 6 || bit_and op 7 == 6)))
          (ld_reg_reg op index)
  unfolding ld_reg_reg
  ld_reg_reg-Advances op index = Advances-by (omega arith) (
      displacement-Advances _ ⊳ λ disp. read_reg8-Advances _ index _ disp ⊳ λ value.
      write_reg8-Advances _ index _ disp value ⊳⊳ add_cycles-Advances _)

  pub pop_pair-Advances : (op : ℕ) (index : IndexMode) → Advances {U = U} 0 (pop_pair op index)
  unfolding pop_pair
  pop_pair-Advances op index = pop16-Advances ⊳ λ value.
      Advances-modify _ (λ s. set_rp2-pc _ index value s) ⊳⊳ add_cycles-Advances _

  pub push_pair-Advances : (op : ℕ) (index : IndexMode) → Advances {U = U} 0 (push_pair op index)
  unfolding push_pair
  push_pair-Advances op index =
      Advances-gets _ ⊳ λ value. push16-Advances value ⊳⊳ add_cycles-Advances _
