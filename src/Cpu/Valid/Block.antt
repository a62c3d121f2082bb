-- ===== src/Cpu/Valid/Block.antt =====
-- The block instructions keep the machine well formed.
use z80_trace.Common.{ℕ, Bool, arith}
use z80_trace.Common.Bits.{bit_or-lt}
use z80_trace.Cpu.State.{StateZ80}
use z80_trace.Cpu.Flags.{flag_z, flag_h, flag_pv}
use z80_trace.Cpu.Ed.Block.{load_flags, search_flags, step_pointers, finish_block}
use z80_trace.Cpu.Ed.Block.{block_load, block_compare, step_io, block_input, block_output}
use z80_trace.Cpu.Valid.Defs.{IsByte, IsState, Gives, Any}
use z80_trace.Cpu.Valid.Rules.{Gives-gets, Gives-modify, Gives-when, ◌▶◌, ◌▷◌}
use z80_trace.Cpu.Valid.Registers.{set_bc-IsState, set_de-IsState, set_hl-IsState, set_f-IsState}
use z80_trace.Cpu.Valid.Registers.{set_pc-IsState, set_b-IsState}
use z80_trace.Cpu.Valid.Alu.{u8-IsByte, u16-IsWord, or_if-IsByte}
use z80_trace.Cpu.Valid.Bus.{read_memory-Gives, write_memory-Gives, read_port-Gives}
use z80_trace.Cpu.Valid.Bus.{write_port-Gives, add_cycles-Gives}

load_flags-IsByte : (f a mem bc : ℕ) → IsByte (load_flags f a mem bc)
unfolding load_flags
load_flags-IsByte f a mem bc = bit_or-lt 8 _ _ (u8-IsByte _) (u8-IsByte _)

search_flags-IsByte : (f a mem bc : ℕ) → IsByte (search_flags f a mem bc)
unfolding search_flags
search_flags-IsByte f a mem bc =
    bit_or-lt 8 _ _
      (or_if-IsByte _ flag_pv _ (omega arith) (
        or_if-IsByte _ flag_h _ (omega arith)
          (or_if-IsByte _ flag_z _ (omega arith) (u8-IsByte _))))
      (u8-IsByte _)

module _ {U : Type 0} where
  step_pointers-IsState : (op : ℕ) (s : StateZ80 U) → IsState s → IsState (step_pointers op s)
  unfolding step_pointers
  step_pointers-IsState op s v = set_bc-IsState _ (set_de-IsState _ (set_hl-IsState s v _) _) _

  step_io-IsState : (op : ℕ) (s : StateZ80 U) → IsState s → IsState (step_io op s)
  unfolding step_io
  step_io-IsState op s v =
      set_f-IsState _ (set_hl-IsState _ (set_b-IsState s v _ (u8-IsByte _)) _) _ (u8-IsByte _)

  finish_block-Gives : (again : Bool) → Gives {U = U} Any (finish_block again)
  unfolding finish_block
  finish_block-Gives again =
      add_cycles-Gives _
      ▷ Gives-when again (Gives-modify (λ s v. set_pc-IsState s v _ (u16-IsWord _)))

  pub block_load-Gives : (op : ℕ) → Gives {U = U} Any (block_load op)
  unfolding block_load
  block_load-Gives op = Gives-gets {P = Any} _ (λ s v. tt) ▶ λ from hf.
      read_memory-Gives from ▶ λ mem hm. Gives-gets {P = Any} _ (λ s v. tt) ▶ λ to ht.
      write_memory-Gives to mem hm
      ▷ Gives-modify (step_pointers-IsState op)
      ▷ Gives-modify (λ s v. set_f-IsState s v _ (load_flags-IsByte _ _ _ _))
      ▷ Gives-gets {P = Any} _ (λ s v. tt)
      ▶ λ bc hb. finish_block-Gives _

  pub block_compare-Gives : (op : ℕ) → Gives {U = U} Any (block_compare op)
  unfolding block_compare
  block_compare-Gives op = Gives-gets {P = Any} _ (λ s v. tt) ▶ λ from hf.
      read_memory-Gives from ▶ λ mem hm. Gives-gets {P = Any} _ (λ s v. tt) ▶ λ result hr.
      Gives-gets {P = Any} _ (λ s v. tt) ▶ λ bc hb.
      Gives-modify (λ s v. set_bc-IsState s v bc)
      ▷ Gives-modify (λ s v. set_hl-IsState s v _)
      ▷ Gives-modify (λ s v. set_f-IsState s v _ (search_flags-IsByte _ _ _ _))
      ▷ finish_block-Gives _

  pub block_input-Gives : (op : ℕ) → Gives {U = U} Any (block_input op)
  unfolding block_input
  block_input-Gives op = Gives-gets {P = Any} _ (λ s v. tt) ▶ λ port hp.
      read_port-Gives port ▶ λ value hv. Gives-gets {P = Any} _ (λ s v. tt) ▶ λ to ht.
      write_memory-Gives to value hv
      ▷ Gives-modify (step_io-IsState op)
      ▷ Gives-gets {P = Any} _ (λ s v. tt)
      ▶ λ b hb. finish_block-Gives _

  pub block_output-Gives : (op : ℕ) → Gives {U = U} Any (block_output op)
  unfolding block_output
  block_output-Gives op = Gives-gets {P = Any} _ (λ s v. tt) ▶ λ from hf.
      read_memory-Gives from ▶ λ value hv. Gives-gets {P = Any} _ (λ s v. tt) ▶ λ port hp.
      write_port-Gives port value hv
      ▷ Gives-modify (step_io-IsState op)
      ▷ Gives-gets {P = Any} _ (λ s v. tt)
      ▶ λ b hb. finish_block-Gives _
