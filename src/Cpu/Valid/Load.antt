-- ===== src/Cpu/Valid/Load.antt =====
-- The loads, exchanges, pushes and pops keep the machine well formed.
use z80_trace.Common.{ℕ, Bool, arith}
use z80_trace.Cpu.State.{StateZ80}
use z80_trace.Cpu.Registers.{IndexMode}
use z80_trace.Cpu.Base.Load.{memory_operand, displacement, ld_pair_imm, ld_reg_imm, store_a_at}
use z80_trace.Cpu.Base.Load.{load_a_at, store_index_at_nn, load_index_at_nn, store_a_at_nn}
use z80_trace.Cpu.Base.Load.{load_a_at_nn, ld_memory_imm, input_a, output_a, exchange_stack_top}
use z80_trace.Cpu.Base.Load.{exchange_de_hl, load_sp, ld_reg_reg, pop_pair, push_pair}
use z80_trace.Cpu.Valid.Defs.{IsByte, IsState, Gives, Any}
use z80_trace.Cpu.Valid.Rules.{Gives-pure, Gives-gets, Gives-modify, Gives-if, ◌▶◌, ◌▷◌}
use z80_trace.Cpu.Valid.Registers.{set_rp-IsState, set_reg8_simple-IsState, set_a-IsState}
use z80_trace.Cpu.Valid.Registers.{set_index_value-IsState, get_index_value-IsWord, set_sp-IsState}
use z80_trace.Cpu.Valid.Registers.{set_de-IsState, set_hl-IsState, set_rp2-IsState}
use z80_trace.Cpu.Valid.Bus.{read_memory-Gives, write_memory-Gives, read_immediate8-Gives}
use z80_trace.Cpu.Valid.Bus.{read_immediate16-Gives, read_memory16-Gives, write_memory16-Gives}
use z80_trace.Cpu.Valid.Bus.{read_port-Gives, write_port-Gives, read_reg8-Gives, write_reg8-Gives}
use z80_trace.Cpu.Valid.Bus.{push16-Gives, pop16-Gives, add_cycles-Gives}

module _ {U : Type 0} where
  pub memory_operand-Gives : (index : IndexMode) → Gives {U = U} Any (memory_operand index)
  unfolding memory_operand
  memory_operand-Gives index =
      Gives-if _ (read_immediate8-Gives ▶ λ disp h. Gives-gets _ (λ s v. tt))
        (Gives-gets _ (λ s v. tt))

  pub displacement-Gives : (indexed : Bool) → Gives {U = U} IsByte (displacement indexed)
  unfolding displacement
  displacement-Gives indexed =
      Gives-if indexed read_immediate8-Gives (Gives-pure {P = IsByte} 0 (omega arith))

  pub ld_pair_imm-Gives : (op : ℕ) (index : IndexMode) → Gives {U = U} Any (ld_pair_imm op index)
  unfolding ld_pair_imm
  ld_pair_imm-Gives op index = read_immediate16-Gives ▶ λ value h.
      Gives-modify (λ s v. set_rp-IsState s v _ _ value h) ▷ add_cycles-Gives 10

  pub ld_reg_imm-Gives : (op : ℕ) (index : IndexMode) → Gives {U = U} Any (ld_reg_imm op index)
  unfolding ld_reg_imm
  ld_reg_imm-Gives op index = read_immediate8-Gives ▶ λ imm h.
      Gives-modify (λ s v. set_reg8_simple-IsState s v _ _ imm h) ▷ add_cycles-Gives _

  pub store_a_at-Gives : (pair : StateZ80 U → ℕ) → Gives Any (store_a_at pair)
  unfolding store_a_at
  store_a_at-Gives pair = Gives-gets {P = Any} _ (λ s v. tt) ▶ λ addr ha.
      Gives-gets {P = IsByte} _ (λ s v. v.a_byte) ▶ λ a h.
      write_memory-Gives addr a h ▷ add_cycles-Gives 7

  pub load_a_at-Gives : (pair : StateZ80 U → ℕ) → Gives Any (load_a_at pair)
  unfolding load_a_at
  load_a_at-Gives pair = Gives-gets {P = Any} _ (λ s v. tt) ▶ λ addr ha.
      read_memory-Gives addr ▶ λ value h.
      Gives-modify (λ s v. set_a-IsState s v value h) ▷ add_cycles-Gives 7

  pub store_index_at_nn-Gives : (index : IndexMode) → Gives {U = U} Any (store_index_at_nn index)
  unfolding store_index_at_nn
  store_index_at_nn-Gives index = read_immediate16-Gives ▶ λ addr ha.
      Gives-gets {P = Any} _ (λ s v. tt) ▶ λ value h.
      write_memory16-Gives addr value ▷ add_cycles-Gives _

  pub load_index_at_nn-Gives : (index : IndexMode) → Gives {U = U} Any (load_index_at_nn index)
  unfolding load_index_at_nn
  load_index_at_nn-Gives index = read_immediate16-Gives ▶ λ addr ha.
      read_memory16-Gives addr ▶ λ value h.
      Gives-modify (λ s v. set_index_value-IsState s v index value h) ▷ add_cycles-Gives _

  pub store_a_at_nn-Gives : Gives {U = U} Any store_a_at_nn
  unfolding store_a_at_nn
  store_a_at_nn-Gives = read_immediate16-Gives ▶ λ addr ha.
      Gives-gets {P = IsByte} _ (λ s v. v.a_byte) ▶ λ a h.
      write_memory-Gives addr a h ▷ add_cycles-Gives 13

  pub load_a_at_nn-Gives : Gives {U = U} Any load_a_at_nn
  unfolding load_a_at_nn
  load_a_at_nn-Gives = read_immediate16-Gives ▶ λ addr ha. read_memory-Gives addr ▶ λ value h.
      Gives-modify (λ s v. set_a-IsState s v value h) ▷ add_cycles-Gives 13

  pub ld_memory_imm-Gives : (index : IndexMode) → Gives {U = U} Any (ld_memory_imm index)
  unfolding ld_memory_imm
  ld_memory_imm-Gives index = memory_operand-Gives index ▶ λ addr ha.
      read_immediate8-Gives ▶ λ value h. write_memory-Gives addr value h ▷ add_cycles-Gives _

  pub input_a-Gives : Gives {U = U} Any input_a
  unfolding input_a
  input_a-Gives = read_immediate8-Gives ▶ λ port hp. Gives-gets {P = Any} _ (λ s v. tt) ▶ λ addr ha.
      read_port-Gives addr ▶ λ value h.
      Gives-modify (λ s v. set_a-IsState s v value h) ▷ add_cycles-Gives 11

  pub output_a-Gives : Gives {U = U} Any output_a
  unfolding output_a
  output_a-Gives = read_immediate8-Gives ▶ λ port hp.
      Gives-gets {P = Any} _ (λ s v. tt) ▶ λ addr ha.
      Gives-gets {P = IsByte} _ (λ s v. v.a_byte) ▶ λ value h.
      write_port-Gives addr value h ▷ add_cycles-Gives 11

  pub exchange_stack_top-Gives : (index : IndexMode) → Gives {U = U} Any (exchange_stack_top index)
  unfolding exchange_stack_top
  exchange_stack_top-Gives index = Gives-gets {P = Any} _ (λ s v. tt) ▶ λ sp hs.
      read_memory16-Gives sp ▶ λ value h. Gives-gets {P = Any} _ (λ s v. tt) ▶ λ old ho.
      write_memory16-Gives sp old
      ▷ Gives-modify (λ s v. set_index_value-IsState s v index value h)
      ▷ add_cycles-Gives _

  pub exchange_de_hl-IsState : (s : StateZ80 U) → IsState s → IsState (exchange_de_hl s)
  unfolding exchange_de_hl
  exchange_de_hl-IsState s v = set_hl-IsState _ (set_de-IsState s v _) _

  pub load_sp-IsState : (index : IndexMode) (s : StateZ80 U) → IsState s → IsState (load_sp index s)
  unfolding load_sp
  load_sp-IsState index s v = set_sp-IsState s v _ (get_index_value-IsWord s v index)

  pub ld_reg_reg-Gives : (op : ℕ) (index : IndexMode) → Gives {U = U} Any (ld_reg_reg op index)
  unfolding ld_reg_reg
  ld_reg_reg-Gives op index = displacement-Gives _ ▶ λ disp hd.
      read_reg8-Gives _ index _ disp ▶ λ value h.
      write_reg8-Gives _ index _ disp value h ▷ add_cycles-Gives _

  pub pop_pair-Gives : (op : ℕ) (index : IndexMode) → Gives {U = U} Any (pop_pair op index)
  unfolding pop_pair
  pop_pair-Gives op index = pop16-Gives ▶ λ value h.
      Gives-modify (λ s v. set_rp2-IsState s v _ index value h) ▷ add_cycles-Gives _

  pub push_pair-Gives : (op : ℕ) (index : IndexMode) → Gives {U = U} Any (push_pair op index)
  unfolding push_pair
  push_pair-Gives op index =
      Gives-gets {P = Any} _ (λ s v. tt) ▶ λ value h. push16-Gives value ▷ add_cycles-Gives _
