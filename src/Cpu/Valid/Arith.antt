-- ===== src/Cpu/Valid/Arith.antt =====
-- The arithmetic instructions keep the machine well formed.
use z80_trace.Common.{ℕ, Bool, true, false, arith}
use z80_trace.Common.Bits.{bit_or-lt, bit_xor-lt}
use z80_trace.Cpu.State.{StateZ80}
use z80_trace.Cpu.Monad.{Cpu}
use z80_trace.Cpu.Registers.{IndexMode}
use z80_trace.Cpu.Base.Arith.{inc_pair, dec_pair, inc_reg, dec_reg, inc_memory, dec_memory, inc_dec}
use z80_trace.Cpu.Base.Arith.{add_index, rotate_a_left_circular, rotate_a_right_circular}
use z80_trace.Cpu.Base.Arith.{rotate_a_left, rotate_a_right, complement_a, set_carry, invert_carry}
use z80_trace.Cpu.Base.Arith.{adjust_a, add_to_a, sub_from_a, and_a, xor_a, or_a, compare_a, alu_a}
use z80_trace.Cpu.Base.Arith.{alu_reg, alu_imm}
use z80_trace.Cpu.Alu.{rotate_left_carry, rotate_right_carry}
use z80_trace.Cpu.Valid.Defs.{IsByte, IsWord, IsState, Gives, Any}
use z80_trace.Cpu.Valid.Rules.{Gives-gets, Gives-modify, Gives-lift, Gives-if, ◌▶◌, ◌▷◌}
use z80_trace.Cpu.Valid.Registers.{set_rp-IsState, set_reg8_simple-IsState, set_a-IsState}
use z80_trace.Cpu.Valid.Registers.{set_index_value-IsState, set_f-IsState}
use z80_trace.Cpu.Valid.Alu.{u8-IsByte, u16-IsWord, add8-IsState, sub8-IsState, inc8-IsState}
use z80_trace.Cpu.Valid.Alu.{dec8-IsState, logic_and-IsState, logic_or-IsState, logic_xor-IsState}
use z80_trace.Cpu.Valid.Alu.{compare8-IsState, add16-IsState, daa-IsState}
use z80_trace.Cpu.Valid.Bus.{read_memory-Gives, write_memory-Gives, read_immediate8-Gives}
use z80_trace.Cpu.Valid.Bus.{read_reg8-Gives, add_cycles-Gives}
use z80_trace.Cpu.Valid.Load.{memory_operand-Gives, displacement-Gives}

module _ {U : Type 0} where
  set_af_both-IsState :
      (a f : ℕ)
      → IsByte a
      → IsByte f
      → (s : StateZ80 U) → IsState s
      → IsState (record s { a = a; f = f })
  set_af_both-IsState a f ha hf s v = ground arith

  pub inc_pair-Gives : (op : ℕ) (index : IndexMode) → Gives {U = U} Any (inc_pair op index)
  unfolding inc_pair
  inc_pair-Gives op index = Gives-gets {P = Any} _ (λ s v. tt) ▶ λ value h.
      Gives-modify (λ s v. set_rp-IsState s v _ _ _ (u16-IsWord _)) ▷ add_cycles-Gives _

  pub dec_pair-Gives : (op : ℕ) (index : IndexMode) → Gives {U = U} Any (dec_pair op index)
  unfolding dec_pair
  dec_pair-Gives op index = Gives-gets {P = Any} _ (λ s v. tt) ▶ λ value h.
      Gives-modify (λ s v. set_rp-IsState s v _ _ _ (u16-IsWord _)) ▷ add_cycles-Gives _

  pub inc_reg-Gives : (op : ℕ) (index : IndexMode) → Gives {U = U} Any (inc_reg op index)
  unfolding inc_reg
  inc_reg-Gives op index = Gives-gets {P = Any} _ (λ s v. tt) ▶ λ value hv.
      Gives-lift {P = IsByte} _ (λ s v. inc8-IsState s v value) ▶ λ result h.
      Gives-modify (λ s v. set_reg8_simple-IsState s v _ _ result h) ▷ add_cycles-Gives _

  pub dec_reg-Gives : (op : ℕ) (index : IndexMode) → Gives {U = U} Any (dec_reg op index)
  unfolding dec_reg
  dec_reg-Gives op index = Gives-gets {P = Any} _ (λ s v. tt) ▶ λ value hv.
      Gives-lift {P = IsByte} _ (λ s v. dec8-IsState s v value) ▶ λ result h.
      Gives-modify (λ s v. set_reg8_simple-IsState s v _ _ result h) ▷ add_cycles-Gives _

  pub inc_memory-Gives : (index : IndexMode) → Gives {U = U} Any (inc_memory index)
  unfolding inc_memory
  inc_memory-Gives index = memory_operand-Gives index ▶ λ addr ha.
      read_memory-Gives addr ▶ λ value hv.
      Gives-lift {P = IsByte} _ (λ s v. inc8-IsState s v value) ▶ λ result h.
      write_memory-Gives addr result h ▷ add_cycles-Gives _

  pub dec_memory-Gives : (index : IndexMode) → Gives {U = U} Any (dec_memory index)
  unfolding dec_memory
  dec_memory-Gives index = memory_operand-Gives index ▶ λ addr ha.
      read_memory-Gives addr ▶ λ value hv.
      Gives-lift {P = IsByte} _ (λ s v. dec8-IsState s v value) ▶ λ result h.
      write_memory-Gives addr result h ▷ add_cycles-Gives _

  pub inc_dec-Gives : (op : ℕ) (index : IndexMode) → Gives {U = U} Any (inc_dec op index)
  unfolding inc_dec
  inc_dec-Gives op index =
      Gives-if _ (Gives-if _ (inc_memory-Gives index) (dec_memory-Gives index))
        (Gives-if _ (inc_reg-Gives op index) (dec_reg-Gives op index))

  pub add_index-Gives : (op : ℕ) (index : IndexMode) → Gives {U = U} Any (add_index op index)
  unfolding add_index
  add_index-Gives op index = Gives-gets {P = Any} _ (λ s v. tt) ▶ λ lhs hl.
      Gives-gets {P = Any} _ (λ s v. tt) ▶ λ rhs hr.
      Gives-lift {P = IsWord} _ (λ s v. add16-IsState s v lhs rhs) ▶ λ sum h.
      Gives-modify (λ s v. set_index_value-IsState s v index sum h) ▷ add_cycles-Gives _

  pub rotate_a_left_circular-IsState :
      (s : StateZ80 U) → IsState s → IsState (rotate_a_left_circular s)
  unfolding rotate_a_left_circular rotate_left_carry
  rotate_a_left_circular-IsState s v = set_af_both-IsState _ _ (u8-IsByte _) (u8-IsByte _) s v

  pub rotate_a_right_circular-IsState :
      (s : StateZ80 U) → IsState s → IsState (rotate_a_right_circular s)
  unfolding rotate_a_right_circular rotate_right_carry
  rotate_a_right_circular-IsState s v =
      set_af_both-IsState _ _ (u8-IsByte _) (bit_or-lt 8 _ _ (u8-IsByte _) (u8-IsByte _)) s v

  pub rotate_a_left-IsState : (s : StateZ80 U) → IsState s → IsState (rotate_a_left s)
  unfolding rotate_a_left
  rotate_a_left-IsState s v = set_af_both-IsState _ _ (u8-IsByte _) (u8-IsByte _) s v

  pub rotate_a_right-IsState : (s : StateZ80 U) → IsState s → IsState (rotate_a_right s)
  unfolding rotate_a_right
  rotate_a_right-IsState s v = set_af_both-IsState _ _ (u8-IsByte _) (u8-IsByte _) s v

  pub complement_a-IsState : (s : StateZ80 U) → IsState s → IsState (complement_a s)
  unfolding complement_a
  complement_a-IsState s v =
      set_af_both-IsState _ _ (bit_xor-lt 8 s.a 0xff v.a_byte (omega arith)) (u8-IsByte _) s v

  pub set_carry-IsState : (s : StateZ80 U) → IsState s → IsState (set_carry s)
  unfolding set_carry
  set_carry-IsState s v = set_f-IsState s v _ (u8-IsByte _)

  pub invert_carry-IsState : (s : StateZ80 U) → IsState s → IsState (invert_carry s)
  unfolding invert_carry
  invert_carry-IsState s v = set_f-IsState s v _ (u8-IsByte _)

  pub adjust_a-Gives : Gives {U = U} Any adjust_a
  unfolding adjust_a
  adjust_a-Gives = Gives-gets {P = Any} _ (λ s v. tt) ▶ λ a ha.
      Gives-lift {P = IsByte} _ (λ s v. daa-IsState s v a) ▶ λ value h.
      Gives-modify (λ s v. set_a-IsState s v value h) ▷ add_cycles-Gives 4

  pub add_to_a-Gives :
      (with_carry : Bool) (value : ℕ) → Gives {U = U} Any (add_to_a with_carry value)
  unfolding add_to_a
  add_to_a-Gives with_carry value = Gives-gets {P = Any} _ (λ s v. tt) ▶ λ a ha.
      Gives-gets {P = Any} _ (λ s v. tt) ▶ λ carry hc.
      Gives-lift {P = IsByte} _ (λ s v. add8-IsState s v a value carry) ▶ λ result h.
      Gives-modify (λ s v. set_a-IsState s v result h)

  pub sub_from_a-Gives :
      (with_carry : Bool) (value : ℕ) → Gives {U = U} Any (sub_from_a with_carry value)
  unfolding sub_from_a
  sub_from_a-Gives with_carry value = Gives-gets {P = IsByte} _ (λ s v. v.a_byte) ▶ λ a ha.
      Gives-gets {P = Any} _ (λ s v. tt) ▶ λ carry hc.
      Gives-lift {P = IsByte} _ (λ s v. sub8-IsState s v a value carry true ha) ▶ λ result h.
      Gives-modify (λ s v. set_a-IsState s v result h)

  pub and_a-Gives : (value : ℕ) → Gives {U = U} Any (and_a value)
  unfolding and_a
  and_a-Gives value = Gives-gets {P = Any} _ (λ s v. tt) ▶ λ a ha.
      Gives-lift {P = IsByte} _ (λ s v. logic_and-IsState s v a value) ▶ λ result h.
      Gives-modify (λ s v. set_a-IsState s v result h)

  pub xor_a-Gives : (value : ℕ) → Gives {U = U} Any (xor_a value)
  unfolding xor_a
  xor_a-Gives value = Gives-gets {P = Any} _ (λ s v. tt) ▶ λ a ha.
      Gives-lift {P = IsByte} _ (λ s v. logic_xor-IsState s v a value) ▶ λ result h.
      Gives-modify (λ s v. set_a-IsState s v result h)

  pub or_a-Gives : (value : ℕ) → Gives {U = U} Any (or_a value)
  unfolding or_a
  or_a-Gives value = Gives-gets {P = Any} _ (λ s v. tt) ▶ λ a ha.
      Gives-lift {P = IsByte} _ (λ s v. logic_or-IsState s v a value) ▶ λ result h.
      Gives-modify (λ s v. set_a-IsState s v result h)

  pub compare_a-Gives : (value : ℕ) → IsByte value → Gives {U = U} Any (compare_a value)
  unfolding compare_a
  compare_a-Gives value h = Gives-modify (λ s v. compare8-IsState s v _ value h)

  pub alu_a-Gives : (op value : ℕ) → IsByte value → Gives {U = U} Any (alu_a op value)
  unfolding alu_a
  alu_a-Gives op value h = Gives-if _ (add_to_a-Gives false value) (
      Gives-if _ (add_to_a-Gives true value) (
        Gives-if _ (sub_from_a-Gives false value) (
          Gives-if _ (sub_from_a-Gives true value) (
            Gives-if _ (and_a-Gives value) (
              Gives-if _ (xor_a-Gives value)
                (Gives-if _ (or_a-Gives value) (compare_a-Gives value h)))))))

  pub alu_reg-Gives : (op : ℕ) (index : IndexMode) → Gives {U = U} Any (alu_reg op index)
  unfolding alu_reg
  alu_reg-Gives op index = displacement-Gives _ ▶ λ disp hd.
      read_reg8-Gives _ index _ disp ▶ λ value h. alu_a-Gives op value h ▷ add_cycles-Gives _

  pub alu_imm-Gives :
      (operation : ℕ → Cpu U (Unit {0}))
      → ((value : ℕ) → IsByte value → Gives Any (operation value))
      → Gives Any (alu_imm operation)
  unfolding alu_imm
  alu_imm-Gives operation h = read_immediate8-Gives ▶ λ value hv. h value hv ▷ add_cycles-Gives 7
