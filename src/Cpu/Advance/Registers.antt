-- ===== src/Cpu/Advance/Registers.antt =====
-- Writing a register leaves the program counter where it is.
use z80_trace.Common.{ℕ, arith, ◌≡◌, refl}
use z80_trace.Cpu.State.{StateZ80}
use z80_trace.Cpu.Registers.{IndexMode, index_none, index_ix, index_iy, set_bc, set_de, set_hl}
use z80_trace.Cpu.Registers.{set_af, set_index_value, set_index_high, set_index_low}
use z80_trace.Cpu.Registers.{set_reg8_simple, set_rp, set_rp2}

module _ {U : Type 0} where
  pub set_index_value-pc :
      (index : IndexMode) (value : ℕ) (s : StateZ80 U) → (set_index_value index value s).pc ≡ s.pc
  unfolding set_index_value set_hl
  set_index_value-pc index_none value s = refl
  set_index_value-pc index_ix value s = refl
  set_index_value-pc index_iy value s = refl

  set_index_high-pc :
      (index : IndexMode) (value : ℕ) (s : StateZ80 U) → (set_index_high index value s).pc ≡ s.pc
  unfolding set_index_high
  set_index_high-pc index_none value s = refl
  set_index_high-pc index_ix value s = refl
  set_index_high-pc index_iy value s = refl

  set_index_low-pc :
      (index : IndexMode) (value : ℕ) (s : StateZ80 U) → (set_index_low index value s).pc ≡ s.pc
  unfolding set_index_low
  set_index_low-pc index_none value s = refl
  set_index_low-pc index_ix value s = refl
  set_index_low-pc index_iy value s = refl

  pub set_reg8_simple-pc :
      (reg : ℕ) (index : IndexMode) (value : ℕ) (s : StateZ80 U)
      → (set_reg8_simple reg index value s).pc ≡ s.pc
  unfolding set_reg8_simple
  set_reg8_simple-pc reg index value s =
      ground (arith, set_index_high-pc index value s, set_index_low-pc index value s)

  pub set_rp-pc :
      (rp : ℕ) (index : IndexMode) (value : ℕ) (s : StateZ80 U)
      → (set_rp rp index value s).pc ≡ s.pc
  unfolding set_rp set_bc set_de
  set_rp-pc rp index value s = ground (arith, set_index_value-pc index value s)

  pub set_rp2-pc :
      (rp : ℕ) (index : IndexMode) (value : ℕ) (s : StateZ80 U)
      → (set_rp2 rp index value s).pc ≡ s.pc
  unfolding set_rp2 set_bc set_de set_af
  set_rp2-pc rp index value s = ground (arith, set_index_value-pc index value s)
