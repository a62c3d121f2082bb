-- ===== src/Cpu/Advance/Ed.antt =====
-- The instructions behind ED: two read an address, the others read nothing behind their opcode.
use z80_trace.Common.{ℕ, Bool, true, false, not, ◌&&◌, refl, ◌≡◌, test, arith}
use z80_trace.Cpu.State.{StateZ80}
use z80_trace.Cpu.Monad.{when, modify, ◌>>◌}
use z80_trace.Cpu.Registers.{index_none, set_a, set_f, set_bc, set_de, set_hl}
use z80_trace.Cpu.Alu.{sub8, add16_carry, sub16_carry}
use z80_trace.Cpu.Ed.{EdCase, in_r_c, in_c, out_c_r, out_c_0, sbc_hl, adc_hl, ld_nn_rp, ld_rp_nn}
use z80_trace.Cpu.Ed.{neg, retn, reti, im_0, im_1, im_2, ld_i_a, ld_r_a, ld_a_i, ld_a_r, rrd, rld}
use z80_trace.Cpu.Ed.{load, compare, input, output, other, decode_ed, set_input_flags}
use z80_trace.Cpu.Ed.{set_interrupt_flags, set_im, execute_ed_case, execute_ed}
use z80_trace.Cpu.Ed.Block.{step_pointers, finish_block, block_load, block_compare, step_io}
use z80_trace.Cpu.Ed.Block.{block_input, block_output}
use z80_trace.Cpu.Advance.Rules.{Advances, Advances-by, Advances-pure, Advances-gets}
use z80_trace.Cpu.Advance.Rules.{Advances-modify, Advances-lift, ◌⊳◌, ◌⊳⊳◌}
use z80_trace.Cpu.Advance.Registers.{set_rp-pc, set_reg8_simple-pc}
use z80_trace.Cpu.Advance.Bus.{read_memory-Advances, write_memory-Advances}
use z80_trace.Cpu.Advance.Bus.{read_immediate16-Advances, read_memory16-Advances}
use z80_trace.Cpu.Advance.Bus.{write_memory16-Advances, read_port-Advances, write_port-Advances}
use z80_trace.Cpu.Advance.Bus.{add_cycles-Advances}
use z80_trace.Cpu.Bus.{add_cycles}

-- The cases after which the next instruction follows: no return, and no block operation that may
-- repeat.
unfoldable pub ed_goes_on : EdCase → ℕ → Bool
ed_goes_on retn op = false
ed_goes_on reti op = false
ed_goes_on load op = not (test op 0x10)
ed_goes_on compare op = not (test op 0x10)
ed_goes_on input op = not (test op 0x10)
ed_goes_on output op = not (test op 0x10)
ed_goes_on _ op = true

unfoldable pub ed_operands : EdCase → ℕ
ed_operands ld_nn_rp = 2
ed_operands ld_rp_nn = 2
ed_operands _ = 0

module _ {U : Type 0} where
  finish_block-Advances :
      (repeats again : Bool)
      → not repeats ≡ true
      → Advances {U = U} 0 (finish_block (repeats && again))
  unfolding finish_block when
  finish_block-Advances false again h = add_cycles-Advances 16 ⊳⊳ Advances-pure tt
  finish_block-Advances true again h = absurd (ground arith)

  block_load-Advances : (op : ℕ) → not (test op 0x10) ≡ true → Advances {U = U} 0 (block_load op)
  unfolding block_load step_pointers set_bc set_de set_hl set_f
  block_load-Advances op h = Advances-gets _ ⊳ λ from. read_memory-Advances from ⊳ λ mem.
      Advances-gets _ ⊳ λ to.
      write_memory-Advances to mem
      ⊳⊳ Advances-modify _ (λ s. refl)
      ⊳⊳ Advances-modify _ (λ s. refl)
      ⊳⊳ Advances-gets _
      ⊳ λ bc. finish_block-Advances (test op 0x10) _ h

  block_compare-Advances :
      (op : ℕ) → not (test op 0x10) ≡ true → Advances {U = U} 0 (block_compare op)
  unfolding block_compare set_bc set_hl set_f
  block_compare-Advances op h = Advances-gets _ ⊳ λ from. read_memory-Advances from ⊳ λ mem.
      Advances-gets _ ⊳ λ result. Advances-gets _ ⊳ λ bc.
      Advances-modify _ (λ s. refl)
      ⊳⊳ Advances-modify _ (λ s. refl)
      ⊳⊳ Advances-modify _ (λ s. refl)
      ⊳⊳ finish_block-Advances (test op 0x10) _ h

  block_input-Advances : (op : ℕ) → not (test op 0x10) ≡ true → Advances {U = U} 0 (block_input op)
  unfolding block_input step_io set_hl set_f
  block_input-Advances op h = Advances-gets _ ⊳ λ port. read_port-Advances port ⊳ λ value.
      Advances-gets _ ⊳ λ to.
      write_memory-Advances to value ⊳⊳ Advances-modify _ (λ s. refl) ⊳⊳ Advances-gets _ ⊳ λ b.
      finish_block-Advances (test op 0x10) _ h

  block_output-Advances :
      (op : ℕ) → not (test op 0x10) ≡ true → Advances {U = U} 0 (block_output op)
  unfolding block_output step_io set_hl set_f
  block_output-Advances op h = Advances-gets _ ⊳ λ from. read_memory-Advances from ⊳ λ value.
      Advances-gets _ ⊳ λ port.
      write_port-Advances port value ⊳⊳ Advances-modify _ (λ s. refl) ⊳⊳ Advances-gets _ ⊳ λ b.
      finish_block-Advances (test op 0x10) _ h

  -- An instruction that changes registers, but not the counter, and counts its cycles.
  change-Advances :
      (change : StateZ80 U → StateZ80 U) (cycles : ℕ)
      → ((s : StateZ80 U) → (change s).pc ≡ s.pc)
      → Advances {U = U} 0 (modify change >> add_cycles cycles)
  change-Advances change cycles same = Advances-modify change same ⊳⊳ add_cycles-Advances cycles

  -- `LD A,I` and `LD A,R`, `RRD` and `RLD`, from the parts in which they differ.
  load_special-Advances :
      (change : StateZ80 U → StateZ80 U)
      → ((s : StateZ80 U) → (change s).pc ≡ s.pc)
      → Advances {U = U} 0 (modify change >> (modify set_interrupt_flags >> add_cycles 9))
  unfolding set_interrupt_flags set_f
  load_special-Advances change same =
      Advances-modify change same ⊳⊳ change-Advances set_interrupt_flags 9 (λ s. refl)

  pub execute_ed_case-Advances :
      (c : EdCase) (op : ℕ)
      → ed_goes_on c op ≡ true
      → Advances {U = U} (ed_operands c) (execute_ed_case c op)
  unfolding ed_goes_on ed_operands execute_ed_case set_input_flags set_f set_a set_hl set_im sub8
      add16_carry sub16_carry
  execute_ed_case-Advances in_r_c op h = Advances-gets _ ⊳ λ addr.
      read_port-Advances addr ⊳ λ value.
      Advances-modify _ (λ s. set_reg8_simple-pc _ index_none value s)
      ⊳⊳ change-Advances _ 12 (λ s. refl)
  execute_ed_case-Advances in_c op h =
      Advances-gets _ ⊳ λ addr. read_port-Advances addr ⊳ λ value. change-Advances _ 12 (λ s. refl)
  execute_ed_case-Advances out_c_r op h = Advances-gets _ ⊳ λ addr.
      Advances-gets _ ⊳ λ value. write_port-Advances addr value ⊳⊳ add_cycles-Advances 12
  execute_ed_case-Advances out_c_0 op h =
      Advances-gets _ ⊳ λ addr. write_port-Advances addr 0 ⊳⊳ add_cycles-Advances 12
  execute_ed_case-Advances sbc_hl op h = Advances-gets _ ⊳ λ lhs. Advances-gets _ ⊳ λ rhs.
      Advances-gets _ ⊳ λ carry.
      Advances-lift _ (λ s. refl) ⊳ λ value. change-Advances _ 15 (λ s. refl)
  execute_ed_case-Advances adc_hl op h = Advances-gets _ ⊳ λ lhs. Advances-gets _ ⊳ λ rhs.
      Advances-gets _ ⊳ λ carry.
      Advances-lift _ (λ s. refl) ⊳ λ value. change-Advances _ 15 (λ s. refl)
  execute_ed_case-Advances ld_nn_rp op h = read_immediate16-Advances ⊳ λ addr.
      Advances-gets _ ⊳ λ value. write_memory16-Advances addr value ⊳⊳ add_cycles-Advances 20
  execute_ed_case-Advances ld_rp_nn op h = read_immediate16-Advances ⊳ λ addr.
      read_memory16-Advances addr ⊳ λ value.
      change-Advances _ 20 (λ s. set_rp-pc _ index_none value s)
  execute_ed_case-Advances neg op h =
      Advances-gets _ ⊳ λ a. Advances-lift _ (λ s. refl) ⊳ λ value. change-Advances _ 8 (λ s. refl)
  execute_ed_case-Advances retn op h = absurd (ground arith)
  execute_ed_case-Advances reti op h = absurd (ground arith)
  execute_ed_case-Advances im_0 op h = change-Advances _ 8 (λ s. refl)
  execute_ed_case-Advances im_1 op h = change-Advances _ 8 (λ s. refl)
  execute_ed_case-Advances im_2 op h = change-Advances _ 8 (λ s. refl)
  execute_ed_case-Advances ld_i_a op h = change-Advances _ 9 (λ s. refl)
  execute_ed_case-Advances ld_r_a op h = change-Advances _ 9 (λ s. refl)
  execute_ed_case-Advances ld_a_i op h = load_special-Advances _ (λ s. refl)
  execute_ed_case-Advances ld_a_r op h = load_special-Advances _ (λ s. refl)
  execute_ed_case-Advances rrd op h = Advances-gets _ ⊳ λ addr. read_memory-Advances addr ⊳ λ mem.
      Advances-gets _ ⊳ λ new_mem.
      Advances-modify _ (λ s. refl)
      ⊳⊳ write_memory-Advances addr new_mem
      ⊳⊳ change-Advances _ 18 (λ s. refl)
  execute_ed_case-Advances rld op h = Advances-gets _ ⊳ λ addr. read_memory-Advances addr ⊳ λ mem.
      Advances-gets _ ⊳ λ new_mem.
      Advances-modify _ (λ s. refl)
      ⊳⊳ write_memory-Advances addr new_mem
      ⊳⊳ change-Advances _ 18 (λ s. refl)
  execute_ed_case-Advances load op h = block_load-Advances op h
  execute_ed_case-Advances compare op h = block_compare-Advances op h
  execute_ed_case-Advances input op h = block_input-Advances op h
  execute_ed_case-Advances output op h = block_output-Advances op h
  execute_ed_case-Advances other op h = add_cycles-Advances 8

  pub execute_ed-Advances :
      (op : ℕ)
      → ed_goes_on (decode_ed op) op ≡ true
      → Advances {U = U} (ed_operands (decode_ed op)) (execute_ed op)
  unfolding execute_ed
  execute_ed-Advances op h =
      Advances-by (omega arith) (execute_ed_case-Advances (decode_ed op) op h ⊳⊳ Advances-pure _)
