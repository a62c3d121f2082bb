-- ===== src/Cpu/Advance/Arith.antt =====
-- The arithmetic instructions, by the bytes that stand behind their opcode.
use z80_trace.Common.{ℕ, Bool, true, false, refl, arith, if◌then◌else◌, ◌==◌, ◌&&◌, bit_and}
use z80_trace.Cpu.Monad.{Cpu}
use z80_trace.Cpu.Registers.{IndexMode, is_indexed, set_a}
use z80_trace.Cpu.Alu.{inc8, dec8, add16, daa, add8, sub8, logic_and, logic_xor, logic_or, compare8}
use z80_trace.Cpu.Base.Arith.{inc_pair, dec_pair, inc_reg, dec_reg, inc_memory, dec_memory, inc_dec}
use z80_trace.Cpu.Base.Arith.{add_index, adjust_a, add_to_a, sub_from_a, and_a, xor_a, or_a}
use z80_trace.Cpu.Base.Arith.{compare_a, alu_a, alu_reg, alu_imm}
use z80_trace.Cpu.Base.Load.{reg_field}
use z80_trace.Cpu.Advance.Rules.{Advances, Advances-by, Advances-gets, Advances-modify}
use z80_trace.Cpu.Advance.Rules.{Advances-lift, Advances-if, Advances-either, ◌⊳◌, ◌⊳⊳◌}
use z80_trace.Cpu.Advance.Registers.{set_rp-pc, set_reg8_simple-pc, set_index_value-pc}
use z80_trace.Cpu.Advance.Bus.{read_memory-Advances, write_memory-Advances}
use z80_trace.Cpu.Advance.Bus.{read_immediate8-Advances, read_reg8-Advances, add_cycles-Advances}
use z80_trace.Cpu.Advance.Load.{disp_bytes, memory_operand-Advances, displacement-Advances}

module _ {U : Type 0} where
  pub inc_pair-Advances : (op : ℕ) (index : IndexMode) → Advances {U = U} 0 (inc_pair op index)
  unfolding inc_pair
  inc_pair-Advances op index =
      Advances-gets _ ⊳ λ value. Advances-modify _ (λ s. set_rp-pc _ _ _ s) ⊳⊳ add_cycles-Advances _

  pub dec_pair-Advances : (op : ℕ) (index : IndexMode) → Advances {U = U} 0 (dec_pair op index)
  unfolding dec_pair
  dec_pair-Advances op index =
      Advances-gets _ ⊳ λ value. Advances-modify _ (λ s. set_rp-pc _ _ _ s) ⊳⊳ add_cycles-Advances _

  pub inc_reg-Advances : (op : ℕ) (index : IndexMode) → Advances {U = U} 0 (inc_reg op index)
  unfolding inc_reg inc8
  inc_reg-Advances op index = Advances-gets _ ⊳ λ value. Advances-lift _ (λ s. refl) ⊳ λ result.
      Advances-modify _ (λ s. set_reg8_simple-pc _ _ result s) ⊳⊳ add_cycles-Advances _

  pub dec_reg-Advances : (op : ℕ) (index : IndexMode) → Advances {U = U} 0 (dec_reg op index)
  unfolding dec_reg dec8
  dec_reg-Advances op index = Advances-gets _ ⊳ λ value. Advances-lift _ (λ s. refl) ⊳ λ result.
      Advances-modify _ (λ s. set_reg8_simple-pc _ _ result s) ⊳⊳ add_cycles-Advances _

  pub inc_memory-Advances :
      (index : IndexMode) → Advances {U = U} (disp_bytes (is_indexed index)) (inc_memory index)
  unfolding inc_memory inc8
  inc_memory-Advances index = Advances-by (omega arith) (
      memory_operand-Advances index ⊳ λ addr. read_memory-Advances addr ⊳ λ value.
      Advances-lift _ (λ s. refl) ⊳ λ result.
      write_memory-Advances addr result ⊳⊳ add_cycles-Advances _)

  pub dec_memory-Advances :
      (index : IndexMode) → Advances {U = U} (disp_bytes (is_indexed index)) (dec_memory index)
  unfolding dec_memory dec8
  dec_memory-Advances index = Advances-by (omega arith) (
      memory_operand-Advances index ⊳ λ addr. read_memory-Advances addr ⊳ λ value.
      Advances-lift _ (λ s. refl) ⊳ λ result.
      write_memory-Advances addr result ⊳⊳ add_cycles-Advances _)

  pub inc_dec-Advances :
      (op : ℕ) (index : IndexMode)
      → Advances {U = U}
          (if reg_field op == 6 then disp_bytes (is_indexed index) else 0)
          (inc_dec op index)
  unfolding inc_dec
  inc_dec-Advances op index =
      Advances-if _ (Advances-either _ (inc_memory-Advances index) (dec_memory-Advances index))
        (Advances-either _ (inc_reg-Advances op index) (dec_reg-Advances op index))

  pub add_index-Advances : (op : ℕ) (index : IndexMode) → Advances {U = U} 0 (add_index op index)
  unfolding add_index add16
  add_index-Advances op index = Advances-gets _ ⊳ λ lhs. Advances-gets _ ⊳ λ rhs.
      Advances-lift _ (λ s. refl) ⊳ λ sum.
      Advances-modify _ (λ s. set_index_value-pc index sum s) ⊳⊳ add_cycles-Advances _

  pub adjust_a-Advances : Advances {U = U} 0 adjust_a
  unfolding adjust_a daa set_a
  adjust_a-Advances = Advances-gets _ ⊳ λ a.
      Advances-lift _ (λ s. refl) ⊳ λ value. Advances-modify _ (λ s. refl) ⊳⊳ add_cycles-Advances 4

  pub add_to_a-Advances :
      (with_carry : Bool) (value : ℕ) → Advances {U = U} 0 (add_to_a with_carry value)
  unfolding add_to_a add8 set_a
  add_to_a-Advances with_carry value = Advances-gets _ ⊳ λ a. Advances-gets _ ⊳ λ carry.
      Advances-lift _ (λ s. refl) ⊳ λ result. Advances-modify _ (λ s. refl)

  pub sub_from_a-Advances :
      (with_carry : Bool) (value : ℕ) → Advances {U = U} 0 (sub_from_a with_carry value)
  unfolding sub_from_a sub8 set_a
  sub_from_a-Advances with_carry value = Advances-gets _ ⊳ λ a. Advances-gets _ ⊳ λ carry.
      Advances-lift _ (λ s. refl) ⊳ λ result. Advances-modify _ (λ s. refl)

  pub and_a-Advances : (value : ℕ) → Advances {U = U} 0 (and_a value)
  unfolding and_a logic_and set_a
  and_a-Advances value =
      Advances-gets _ ⊳ λ a. Advances-lift _ (λ s. refl) ⊳ λ result. Advances-modify _ (λ s. refl)

  pub xor_a-Advances : (value : ℕ) → Advances {U = U} 0 (xor_a value)
  unfolding xor_a logic_xor set_a
  xor_a-Advances value =
      Advances-gets _ ⊳ λ a. Advances-lift _ (λ s. refl) ⊳ λ result. Advances-modify _ (λ s. refl)

  pub or_a-Advances : (value : ℕ) → Advances {U = U} 0 (or_a value)
  unfolding or_a logic_or set_a
  or_a-Advances value =
      Advances-gets _ ⊳ λ a. Advances-lift _ (λ s. refl) ⊳ λ result. Advances-modify _ (λ s. refl)

  pub compare_a-Advances : (value : ℕ) → Advances {U = U} 0 (compare_a value)
  unfolding compare_a compare8
  compare_a-Advances value = Advances-modify _ (λ s. refl)

  alu_a-Advances : (op value : ℕ) → Advances {U = U} 0 (alu_a op value)
  unfolding alu_a
  alu_a-Advances op value = Advances-either _ (add_to_a-Advances false value) (
      Advances-either _ (add_to_a-Advances true value) (
        Advances-either _ (sub_from_a-Advances false value) (
          Advances-either _ (sub_from_a-Advances true value) (
            Advances-either _ (and_a-Advances value) (
              Advances-either _ (xor_a-Advances value)
                (Advances-either _ (or_a-Advances value) (compare_a-Advances value)))))))

  pub alu_reg-Advances :
      (op : ℕ) (index : IndexMode)
      → Advances {U = U} (disp_bytes (is_indexed index && bit_and op 7 == 6)) (alu_reg op index)
  unfolding alu_reg
  alu_reg-Advances op index = Advances-by (omega arith) (
      displacement-Advances _ ⊳ λ disp.
      read_reg8-Advances _ index _ disp ⊳ λ value. alu_a-Advances op value ⊳⊳ add_cycles-Advances _)

  pub alu_imm-Advances :
      (operation : ℕ → Cpu U (Unit {0}))
      → ((value : ℕ) → Advances 0 (operation value))
      → Advances 1 (alu_imm operation)
  unfolding alu_imm
  alu_imm-Advances operation h =
      read_immediate8-Advances ⊳ λ value. h value ⊳⊳ add_cycles-Advances 7
