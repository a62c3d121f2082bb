-- ===== src/Cpu/Valid/Ed.antt =====
-- The instructions behind ED keep the machine well formed.
use z80_trace.Common.{ℕ, ◌≤◌, true, arith, u8, bit_or, bit_and}
use z80_trace.Cpu.State.{StateZ80, ok}
use z80_trace.Cpu.Monad.{◌>>=◌, ◌>>◌, modify}
use z80_trace.Cpu.Bus.{pop16, add_cycles}
use z80_trace.Cpu.Registers.{index_none, set_pc}
use z80_trace.Cpu.Ed.{
  EdCase, in_r_c, in_c, out_c_r, out_c_0, sbc_hl, adc_hl, ld_nn_rp, ld_rp_nn, neg,
}
use z80_trace.Cpu.Ed.{retn, reti, im_0, im_1, im_2, ld_i_a, ld_r_a, ld_a_i, ld_a_r, rrd, rld, load}
use z80_trace.Cpu.Ed.{compare, input, output, other, set_input_flags, set_interrupt_flags, set_im}
use z80_trace.Cpu.Ed.{execute_ed_case, execute_ed}
use z80_trace.Cpu.Valid.Defs.{IsByte, IsWord, IsState, IsImplemented, Gives, Any}
use z80_trace.Cpu.Valid.Rules.{Gives-pure, Gives-gets, Gives-modify, Gives-lift, ◌▶◌, ◌▷◌}
use z80_trace.Cpu.Valid.Registers.{set_f-IsState, set_a-IsState, set_pc-IsState, set_hl-IsState}
use z80_trace.Cpu.Valid.Registers.{set_rp-IsState, set_reg8_simple-IsState, get_reg8_simple-IsByte}
use z80_trace.Cpu.Valid.Alu.{u8-IsByte, sub8-IsState, add16_carry-IsState, sub16_carry-IsState}
use z80_trace.Cpu.Valid.Bus.{read_memory-Gives, write_memory-Gives, read_port-Gives}
use z80_trace.Cpu.Valid.Bus.{write_port-Gives, add_cycles-Gives, read_immediate16-Gives}
use z80_trace.Cpu.Valid.Bus.{read_memory16-Gives, write_memory16-Gives, pop16-Gives}
use z80_trace.Cpu.Valid.Block.{block_load-Gives, block_compare-Gives, block_input-Gives}
use z80_trace.Cpu.Valid.Block.{block_output-Gives}
use z80_trace.Cpu.Valid.Cb.{ok-IsImplemented}

module _ {U : Type 0} where
  set_input_flags-IsState :
      (value : ℕ) (s : StateZ80 U) → IsState s → IsState (set_input_flags value s)
  unfolding set_input_flags
  set_input_flags-IsState value s v = set_f-IsState s v _ (u8-IsByte _)

  set_interrupt_flags-IsState : (s : StateZ80 U) → IsState s → IsState (set_interrupt_flags s)
  unfolding set_interrupt_flags
  set_interrupt_flags-IsState s v = set_f-IsState s v _ (u8-IsByte _)

  set_im-IsState : (mode : ℕ) → mode ≤ 2 → (s : StateZ80 U) → IsState s → IsState (set_im mode s)
  unfolding set_im
  set_im-IsState mode h s v = ground arith

  copy_iff-IsState : (s : StateZ80 U) → IsState s → IsState (record s { iff1 = s.iff2 })
  copy_iff-IsState s v = ground arith

  copy_i-IsState : (s : StateZ80 U) → IsState s → IsState (record s { i = s.a })
  copy_i-IsState s v = ground arith

  set_r-IsState :
      (s : StateZ80 U)
      → IsState s
      → IsState (record s { r = u8 (bit_or (bit_and s.r 0x80) (bit_and s.a 0x7f)) })
  set_r-IsState s v = ground arith

  return-Gives : Gives {U = U} Any (pop16 >>= λ pc. modify (set_pc pc) >> add_cycles 14)
  return-Gives =
      pop16-Gives ▶ λ pc h. Gives-modify (λ s v. set_pc-IsState s v pc h) ▷ add_cycles-Gives 14

  execute_ed_case-Gives : (c : EdCase) (op : ℕ) → Gives {U = U} Any (execute_ed_case c op)
  unfolding execute_ed_case
  execute_ed_case-Gives in_r_c op = Gives-gets {P = Any} _ (λ s v. tt) ▶ λ addr ha.
      read_port-Gives addr ▶ λ value h.
      Gives-modify (λ s v. set_reg8_simple-IsState s v _ index_none value h)
      ▷ Gives-modify (set_input_flags-IsState value)
      ▷ add_cycles-Gives 12
  execute_ed_case-Gives in_c op = Gives-gets {P = Any} _ (λ s v. tt) ▶ λ addr ha.
      read_port-Gives addr ▶ λ value h.
      Gives-modify (set_input_flags-IsState value) ▷ add_cycles-Gives 12
  execute_ed_case-Gives out_c_r op = Gives-gets {P = Any} _ (λ s v. tt) ▶ λ addr ha.
      Gives-gets _ (λ s v. get_reg8_simple-IsByte s v _ index_none) ▶ λ value h.
      write_port-Gives addr value h ▷ add_cycles-Gives 12
  execute_ed_case-Gives out_c_0 op = Gives-gets {P = Any} _ (λ s v. tt) ▶ λ addr ha.
      write_port-Gives addr 0 (omega arith) ▷ add_cycles-Gives 12
  execute_ed_case-Gives sbc_hl op = Gives-gets {P = Any} _ (λ s v. tt) ▶ λ lhs hl.
      Gives-gets {P = Any} _ (λ s v. tt) ▶ λ rhs hr.
      Gives-gets {P = Any} _ (λ s v. tt) ▶ λ carry hc.
      Gives-lift {P = IsWord} _ (λ s v. sub16_carry-IsState s v lhs rhs carry) ▶ λ value h.
      Gives-modify (λ s v. set_hl-IsState s v value) ▷ add_cycles-Gives 15
  execute_ed_case-Gives adc_hl op = Gives-gets {P = Any} _ (λ s v. tt) ▶ λ lhs hl.
      Gives-gets {P = Any} _ (λ s v. tt) ▶ λ rhs hr.
      Gives-gets {P = Any} _ (λ s v. tt) ▶ λ carry hc.
      Gives-lift {P = IsWord} _ (λ s v. add16_carry-IsState s v lhs rhs carry) ▶ λ value h.
      Gives-modify (λ s v. set_hl-IsState s v value) ▷ add_cycles-Gives 15
  execute_ed_case-Gives ld_nn_rp op = read_immediate16-Gives ▶ λ addr ha.
      Gives-gets {P = Any} _ (λ s v. tt) ▶ λ value h.
      write_memory16-Gives addr value ▷ add_cycles-Gives 20
  execute_ed_case-Gives ld_rp_nn op = read_immediate16-Gives ▶ λ addr ha.
      read_memory16-Gives addr ▶ λ value h.
      Gives-modify (λ s v. set_rp-IsState s v _ index_none value h) ▷ add_cycles-Gives 20
  execute_ed_case-Gives neg op = Gives-gets {P = Any} _ (λ s v. tt) ▶ λ a ha.
      Gives-lift _ (λ s v. sub8-IsState s v 0 a 0 true (omega arith)) ▶ λ value h.
      Gives-modify (λ s v. set_a-IsState s v value h) ▷ add_cycles-Gives 8
  execute_ed_case-Gives retn op = Gives-modify copy_iff-IsState ▷ return-Gives
  execute_ed_case-Gives reti op = return-Gives
  execute_ed_case-Gives im_0 op = Gives-modify (set_im-IsState 0 (omega arith)) ▷ add_cycles-Gives 8
  execute_ed_case-Gives im_1 op = Gives-modify (set_im-IsState 1 (omega arith)) ▷ add_cycles-Gives 8
  execute_ed_case-Gives im_2 op = Gives-modify (set_im-IsState 2 (omega arith)) ▷ add_cycles-Gives 8
  execute_ed_case-Gives ld_i_a op = Gives-modify copy_i-IsState ▷ add_cycles-Gives 9
  execute_ed_case-Gives ld_r_a op = Gives-modify set_r-IsState ▷ add_cycles-Gives 9
  execute_ed_case-Gives ld_a_i op =
      Gives-modify (λ s v. set_a-IsState s v s.i v.i_byte)
      ▷ Gives-modify set_interrupt_flags-IsState
      ▷ add_cycles-Gives 9
  execute_ed_case-Gives ld_a_r op =
      Gives-modify (λ s v. set_a-IsState s v s.r v.r_byte)
      ▷ Gives-modify set_interrupt_flags-IsState
      ▷ add_cycles-Gives 9
  execute_ed_case-Gives rrd op = Gives-gets {P = Any} _ (λ s v. tt) ▶ λ addr ha.
      read_memory-Gives addr ▶ λ mem hm.
      Gives-gets {P = IsByte} _ (λ s v. u8-IsByte _) ▶ λ new_mem h.
      Gives-modify (λ s v. set_a-IsState s v _ (u8-IsByte _))
      ▷ write_memory-Gives addr new_mem h
      ▷ Gives-modify (λ s v. set_input_flags-IsState _ s v)
      ▷ add_cycles-Gives 18
  execute_ed_case-Gives rld op = Gives-gets {P = Any} _ (λ s v. tt) ▶ λ addr ha.
      read_memory-Gives addr ▶ λ mem hm.
      Gives-gets {P = IsByte} _ (λ s v. u8-IsByte _) ▶ λ new_mem h.
      Gives-modify (λ s v. set_a-IsState s v _ (u8-IsByte _))
      ▷ write_memory-Gives addr new_mem h
      ▷ Gives-modify (λ s v. set_input_flags-IsState _ s v)
      ▷ add_cycles-Gives 18
  execute_ed_case-Gives load op = block_load-Gives op
  execute_ed_case-Gives compare op = block_compare-Gives op
  execute_ed_case-Gives input op = block_input-Gives op
  execute_ed_case-Gives output op = block_output-Gives op
  execute_ed_case-Gives other op = add_cycles-Gives 8

  pub execute_ed-Gives : (op : ℕ) → Gives {U = U} IsImplemented (execute_ed op)
  unfolding execute_ed
  execute_ed-Gives op =
      execute_ed_case-Gives _ op ▷ Gives-pure {P = IsImplemented} ok ok-IsImplemented
